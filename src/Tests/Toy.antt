-- ===== src/Tests/Toy.antt =====
-- Concrete functions in place of the packages that the repository only calls, for the examples.
use strava_auth_proxy.Prelude.{
  Bool-cases, inl, inr, zero, suc, ℕ, ◌+◌, ◌*◌, ◌%◌, ◌≡◌, refl, arith, true, some, [], ◌∷◌, ◌++◌,
  if◌then◌else◌, is_empty,
}
use strava_auth_proxy.Prelude.Int.{ℤ, pos, negsuc}
use strava_auth_proxy.Go.Text.{Str}
use strava_auth_proxy.Go.Base64.Laws.{IsBytes}
use strava_auth_proxy.Seal.{Primitives, Codec, StatePayload, CodePayload}
use strava_auth_proxy.Seal.Laws.{IsFaithful, IsCodec, IsTotal}

-- A compressor that writes its input in unary.
unfoldable pub unary : ℕ → Str → Str
unary zero rest = 0 ∷ rest
unary (suc n) rest = 1 ∷ unary n rest

unfoldable pub pack : Str → Str
unfolding unary
pack [] = []
pack (n ∷ s) = unary n (pack s)

unfoldable pub unpack : ℕ → Str → Str
unpack n [] = []
unpack n (zero ∷ s) = n ∷ unpack 0 s
unpack n (suc _ ∷ s) = unpack (n + 1) s

-- A MAC of one byte.
checksum : Str → ℕ
checksum [] = 7
checksum (c ∷ s) = (c + 3 * checksum s) % 256

unfoldable pub toy : Primitives
unfolding pack unpack checksum
toy = record {
  hmac = λ key message. checksum (key ++ message) ∷ [];
  flate = λ raw. some (pack raw);
  flate_stream = λ packed. (unpack 0 packed, true);
}

unary-IsBytes : (n : ℕ) (rest : Str) → IsBytes rest → IsBytes (unary n rest)
unfolding unary
unary-IsBytes zero rest h = (ground arith, h)
unary-IsBytes (suc n) rest h = (ground arith, unary-IsBytes n rest h)

pack-IsBytes : (s : Str) → IsBytes (pack s)
unfolding pack
pack-IsBytes [] = tt
pack-IsBytes (n ∷ s) = unary-IsBytes n (pack s) (pack-IsBytes s)

unpack-unary : (m n : ℕ) (rest : Str) → unpack m (unary n rest) ≡ (m + n) ∷ unpack 0 rest
unfolding unpack unary
unpack-unary m zero rest = ground arith
unpack-unary m (suc n) rest = ground (arith, unpack-unary (m + 1) n rest)

unpack-pack : (s : Str) → unpack 0 (pack s) ≡ s
unfolding pack unpack
unpack-pack [] = refl
unpack-pack (n ∷ s) = ground (arith, unpack-unary 0 n (pack s), unpack-pack s)

checksum_byte : (s : Str) → IsBytes (checksum s ∷ [])
unfolding checksum
checksum_byte [] = (ground arith, tt)
checksum_byte (c ∷ s) = (ground arith, tt)

pub toy-IsFaithful : IsFaithful toy
unfolding toy
toy-IsFaithful = record {
  flate_bytes = λ raw packed e. ground (arith, pack-IsBytes raw);
  flate_back = λ raw packed e. ground (arith, unpack-pack raw);
  hmac_bytes = λ key message. checksum_byte (key ++ message);
}

-- A payload's strings one after the other, each closed by a 0.
unfoldable pub put : Str → Str → Str
put [] rest = 0 ∷ rest
put (c ∷ s) rest = 1 ∷ c ∷ put s rest

unfoldable pub split_first : Str → Str × Str
split_first [] = ([], [])
split_first (zero ∷ rest) = ([], rest)
split_first (suc _ ∷ []) = ([], [])
split_first (suc _ ∷ c ∷ rest) = let (s, after) = split_first rest in (c ∷ s, after)

split_first-put : (s rest : Str) → split_first (put s rest) ≡ (s, rest)
unfolding put split_first
split_first-put [] rest = refl
split_first-put (c ∷ s) rest = ground (arith, split_first-put s rest)

unfoldable pub put_int : ℤ → Str
put_int (pos n) = 0 ∷ n ∷ []
put_int (negsuc n) = 1 ∷ n ∷ []

unfoldable pub get_int : Str → ℤ
get_int (zero ∷ n ∷ s) = pos n
get_int (suc _ ∷ n ∷ s) = negsuc n
get_int _ = pos 0

get_int-put_int : (i : ℤ) → get_int (put_int i) ≡ i
unfolding get_int put_int
get_int-put_int (pos n) = refl
get_int-put_int (negsuc n) = refl

unfoldable pub get_code : Str → CodePayload
unfolding split_first get_int
get_code s =
    let (cid, after_cid) = split_first s in
    let (sc, after_sc) = split_first after_cid in
    record { cid = cid; sc = sc; iat = get_int after_sc }

unfoldable pub code_codec : Codec CodePayload
unfolding put put_int get_code
code_codec = record {
  marshal = λ p. some (put p.cid (put p.sc (put_int p.iat)));
  unmarshal = λ s. some (get_code s);
  unmarshal_iat = λ s. some (get_code s).iat;
}

get_code_back : (p : CodePayload) → get_code (put p.cid (put p.sc (put_int p.iat))) ≡ p
unfolding get_code
get_code_back p = simp (split_first-put, get_int-put_int)

pub code_codec-IsCodec : IsCodec code_codec (λ p. p) (λ p. p.iat)
unfolding code_codec
code_codec-IsCodec = record {
  unmarshal_back = λ p raw e. ground (arith, get_code_back p);
  iat_back = λ p raw e. ground (arith, get_code_back p);
}

pub toy-IsTotal : IsTotal toy code_codec
unfolding toy code_codec
toy-IsTotal = record { flates = λ raw. (pack raw, refl); marshals = λ p. (_, refl) }

get_state : Str → StatePayload
unfolding split_first get_int
get_state s =
    let (cid, after_cid) = split_first s in
    let (ru, after_ru) = split_first after_cid in
    let (st, after_st) = split_first after_ru in
    let (nonce, after_nonce) = split_first after_st in
    let (flag, after_flag) = split_first after_nonce in
    record {
      cid = cid;
      ru = ru;
      st = st;
      has_st = is_empty flag;
      iat = get_int after_flag;
      nonce = nonce;
    }

unfoldable pub state_codec : Codec StatePayload
unfolding put put_int get_state
state_codec = record {
  marshal = λ p.
      let flag = if p.has_st then [] else 1 ∷ [] in
      some (put p.cid (put p.ru (put p.st (put p.nonce (put flag (put_int p.iat))))));
  unmarshal = λ s. some (get_state s);
  unmarshal_iat = λ s. some (get_state s).iat;
}

get_state_back :
    (p : StatePayload)
    → get_state (
        put p.cid (
          put p.ru
            (put p.st (put p.nonce (put (if p.has_st then [] else 1 ∷ []) (put_int p.iat))))))
      ≡ p
unfolding get_state
get_state_back p = elim (Bool-cases p.has_st) [
  | inl e ↦ rw e (simp (split_first-put, get_int-put_int) (ground (arith, e)))
  | inr e ↦ rw e (simp (split_first-put, get_int-put_int) (ground (arith, e)))
]

pub state_codec-IsCodec : IsCodec state_codec (λ p. p) (λ p. p.iat)
unfolding state_codec
state_codec-IsCodec = record {
  unmarshal_back = λ p raw e. ground (arith, get_state_back p);
  iat_back = λ p raw e. ground (arith, get_state_back p);
}

pub toy-IsTotal_state : IsTotal toy state_codec
unfolding toy state_codec
toy-IsTotal_state = record { flates = λ raw. (pack raw, refl); marshals = λ p. (_, refl) }
