-- ===== src/Config/Clients/Sound.antt =====
-- What `parse_clients` returns passes the loop of `validate` over the clients, and is looked up as
-- it is listed.
use strava_auth_proxy.Prelude.{
  ◌≢◌, false, ◌∙◌, All, All-append, refl, true, ok, none, some, ◌≡◌, Result-cases, arith, List, [],
  ◌∷◌, ◌++◌, inl, inr, append-nil, append_assoc, length, is_empty, Option-cases,
}
use strava_auth_proxy.Config.Clients.{
  not_empty, hex_digest, client_digest, digest_for, parse_client, parse_client_entries,
  parse_clients,
}
use strava_auth_proxy.Go.Text.{Str, eq_refl, eq_iff}
use strava_auth_proxy.Config.{
  Client, ClientJson, Libraries, find, is_all_digits, validate_redirect_uris,
}
use strava_auth_proxy.Config.Validate.{require, validate_clients}

-- Every entry is what a lookup of its id finds.
abbrev pub Listed : List (Str × Client) → Type 0
Listed clients = All (λ (e : Str × Client). find clients e.0 ≡ some e.1) clients

-- No id stands in two entries.
abbrev pub Distinct : List (Str × Client) → Type 0
Distinct [] = Unit
Distinct (e ∷ es) = All (λ (f : Str × Client). e.0 ≢ f.0) es × Distinct es

find-cons_none :
    (e : Str × Client) (es : List (Str × Client)) (id : Str)
    → find (e ∷ es) id ≡ none
    → (e.0 ≢ id) × (find es id ≡ none)
unfolding find
find-cons_none e es id h = ground (arith, eq_iff e.0 id)

Distinct-append :
    (clients : List (Str × Client)) (id : Str) (c : Client)
    → Distinct clients
    → find clients id ≡ none
    → Distinct (clients ++ (id, c) ∷ [])
Distinct-append [] id c h absent = (tt, tt)
Distinct-append (e ∷ es) id c (apart, h) absent =
    let (ne, absent') = find-cons_none e es id absent in
    (
      All-append (λ (f : Str × Client). e.0 ≢ f.0) es ((id, c) ∷ []) apart (ne, tt),
      Distinct-append es id c h absent',
    )

find-append_some :
    (xs ys : List (Str × Client)) (id : Str) (c : Client)
    → find xs id ≡ some c
    → find (xs ++ ys) id ≡ some c
unfolding find
find-append_some [] ys id c h = cc
find-append_some (x ∷ xs) ys id c h = ground (arith, find-append_some xs ys id c)

find-append_none :
    (xs ys : List (Str × Client)) (id : Str) → find xs id ≡ none → find (xs ++ ys) id ≡ find ys id
unfolding find
find-append_none [] ys id h = refl
find-append_none (x ∷ xs) ys id h = ground (arith, find-append_none xs ys id)

All-find-append :
    (all more xs : List (Str × Client))
    → All (λ (e : Str × Client). find all e.0 ≡ some e.1) xs
    → All (λ (e : Str × Client). find (all ++ more) e.0 ≡ some e.1) xs
All-find-append all more [] h = tt
All-find-append all more (x ∷ xs) h =
    (find-append_some all more x.0 x.1 h.0, All-find-append all more xs h.1)

find_single : (id : Str) (c : Client) → find ((id, c) ∷ []) id ≡ some c
unfolding find
find_single id c = rw (eq_refl id)

Listed-append :
    (clients : List (Str × Client)) (id : Str) (c : Client)
    → Listed clients
    → find clients id ≡ none
    → Listed (clients ++ (id, c) ∷ [])
Listed-append clients id c h absent =
    All-append (λ (e : Str × Client). find (clients ++ (id, c) ∷ []) e.0 ≡ some e.1) clients
      ((id, c) ∷ []) (All-find-append clients ((id, c) ∷ []) clients h)
      (find-append_none clients ((id, c) ∷ []) id absent ∙ find_single id c, tt)

module _ (lib : Libraries) (sha256_size : (s : Str) → length (lib.sha256 s) ≡ 32) where
  client_digest_size : (e : ClientJson) (d : Str) → client_digest lib e ≡ ok d → length d ≡ 32
  unfolding client_digest hex_digest
  client_digest_size e d h = ground (arith, sha256_size (e.client_secret.v))

  parse_client_sound :
      (clients : List (Str × Client)) (e : ClientJson) (c : Client)
      → parse_client lib clients e ≡ ok c
      → (is_all_digits c.id ≡ true)
        × (find clients c.id ≡ none)
        × (is_empty c.redirect_uris ≡ false)
        × (validate_redirect_uris lib c.id c.redirect_uris ≡ ok tt)
        × (length c.secret_sha256 ≡ 32)
  unfolding parse_client digest_for
  parse_client_sound clients e c h = elim (Result-cases (client_digest lib e)) [
    | inl (bad, e') ↦ absurd (ground arith)
    | inr (d, e') ↦ ground (arith, client_digest_size e d e')
  ]

  parse_client_entries_sound :
      (entries : List ClientJson) (clients result : List (Str × Client))
      → parse_client_entries lib entries clients ≡ ok result
      → Listed clients
      → Distinct clients
      → (new : List (Str × Client)) × (result ≡ clients ++ new)
        × (validate_clients lib new ≡ ok tt)
        × Listed result
        × Distinct result
        × All (λ (e : Str × Client). length e.1.secret_sha256 ≡ 32) new
  unfolding parse_client_entries validate_clients require
  parse_client_entries_sound [] clients result h listed apart =
      ([], ground (arith, append-nil clients), refl, ground arith, ground arith, tt)
  parse_client_entries_sound (e ∷ entries) clients result h listed apart =
      elim (Result-cases (parse_client lib clients e)) [
        | inl (e', bad) ↦ absurd (ground arith)
        | inr (c, good) ↦
            let (digits, absent, some_uri, uris, size) = parse_client_sound clients e c good in
            let (new, same, rest, listed', apart', sizes) =
              parse_client_entries_sound entries (clients ++ (c.id, c) ∷ []) result (ground arith)
                (Listed-append clients c.id c listed absent)
                (Distinct-append clients c.id c apart absent) in
            (
              (c.id, c) ∷ new,
              ground (arith, same, append_assoc clients ((c.id, c) ∷ []) new),
              rw (digits, eq_refl c.id, some_uri, uris) rest,
              listed',
              apart',
              (size, sizes),
            )
      ]

  -- The registry that `parse_clients` returns is not empty, passes the loop of `validate`, has no id
  -- in two entries, a lookup of a listed id finds the client listed with it, and every stored digest
  -- is 32 bytes, where SHA-256 gives 32 bytes.
  pub parse_clients_sound :
      (raw : Str) (clients : List (Str × Client))
      → parse_clients lib raw ≡ ok clients
      → (clients ≢ [])
        × (validate_clients lib clients ≡ ok tt)
        × Listed clients
        × Distinct clients
        × All (λ (e : Str × Client). length e.1.secret_sha256 ≡ 32) clients
  unfolding parse_clients not_empty
  parse_clients_sound raw clients h = elim (Option-cases (lib.registry_json raw)) [
    | inl e ↦ absurd (ground arith)
    | inr (entries, e) ↦ elim (Result-cases (parse_client_entries lib entries [])) [
      | inl (e', bad) ↦ absurd (ground arith)
      | inr (found, good) ↦
          let (new, same, valid, listed, apart, sizes) =
            parse_client_entries_sound entries [] found good tt tt in
          let all_of_them : clients ≡ new = ground arith in
          let is_found : found ≡ clients = ground arith in
          (
            ground arith,
            rw all_of_them valid,
            rw is_found at listed,
            rw is_found at apart,
            rw all_of_them sizes,
          )
    ]
  ]
