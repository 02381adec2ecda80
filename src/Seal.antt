-- ===== src/Seal.antt =====
-- internal/seal/seal.go: the HMAC envelope that carries a flow's context through the browser.
-- HMAC-SHA256, package flate and package json are parameters: `Primitives` and `Codec`.
pub mod Laws
pub mod RoundTrip
pub mod Sealed
pub mod Authentic
pub mod Domains
pub mod Window
mod Examples
use strava_auth_proxy.Prelude.{
  ℕ, ◌+◌, ◌*◌, Bool, true, false, not, ◌&&◌, ◌||◌, Option, none, some, List, [], ◌∷◌, ◌++◌, Result,
  ok, err, ◌>>=◌, ◌>>◌, ltb, leb, length, take, is_empty, if◌then◌else◌,
}
use strava_auth_proxy.Prelude.Int.{ℤ, pos, ltb_ℤ}
use strava_auth_proxy.Go.Text.{Str, str, ◌==◌, contains, split}
use strava_auth_proxy.Go.Base64.{url, encode_raw, decode_raw}
use strava_auth_proxy.Go.Time.{Instant, Duration, second, sub, unix}

abbrev pub domain_state : Str
domain_state = str "sapstate.v1"

abbrev pub domain_code : Str
domain_code = str "sapcode.v1"

abbrev pub max_clock_skew : Duration
max_clock_skew = pos (60 * second)

abbrev pub max_payload_bytes : ℕ
max_payload_bytes = 65536

abbrev pub max_logged_kid_len : ℕ
max_logged_kid_len = 64

pub data Sentinel : Type 0 where
  err_malformed err_unknown_kid err_bad_mac err_expired err_future err_empty_ring : Sentinel

-- The errors that `seal` and `open_envelope` build, with the values that their messages show.
pub data Error : Type 0 where
  ring_empty : Error
  kid_unusable : Str → Error
  key_missing : Str → Error
  not_marshalled not_compressed : Error
  wrong_parts : ℕ → Error
  kid_not_in_ring : Str → Error
  payload_undecodable mac_undecodable mac_mismatch : Error
  payload_corrupt payload_not_json iat_not_json : Error
  iat_ahead : Duration → Error
  iat_old : Duration → Duration → Error

-- errors.Is(err, sentinel), by the sentinels that each error wraps.
unfoldable pub is : Error → Sentinel → Bool
is ring_empty err_empty_ring = true
is (kid_unusable _) err_malformed = true
is (key_missing _) err_empty_ring = true
is not_marshalled err_malformed = true
is not_compressed err_malformed = true
is (wrong_parts _) err_malformed = true
is (kid_not_in_ring _) err_unknown_kid = true
is payload_undecodable err_malformed = true
is mac_undecodable err_malformed = true
is mac_mismatch err_bad_mac = true
is payload_corrupt err_malformed = true
is payload_not_json err_malformed = true
is iat_not_json err_malformed = true
is (iat_ahead _) err_expired = true
is (iat_ahead _) err_future = true
is (iat_old _ _) err_expired = true
is _ _ = false

pub record Key : Type 0 where
  pub kid : Str
  pub key : Str

abbrev pub Ring : Type 0
Ring = List Key

pub record StatePayload : Type 0 where
  pub cid : Str
  pub ru : Str
  pub st : Str
  pub has_st : Bool
  pub iat : ℤ
  pub nonce : Str

pub record CodePayload : Type 0 where
  pub cid : Str
  pub sc : Str
  pub iat : ℤ

-- HMAC-SHA256 of a key and a message; a compressor; and what a decompressor makes of its input:
-- the bytes it yields, and whether they end without an error.
pub record Primitives : Type 0 where
  pub hmac : Str → Str → Str
  pub flate : Str → Option Str
  pub flate_stream : Str → Str × Bool

-- json.Marshal and json.Unmarshal at a payload type, and json.Unmarshal into the issue-time probe.
pub record Codec (P : Type 0) : Type 0 where
  pub marshal : P → Option Str
  pub unmarshal : Str → Option P
  pub unmarshal_iat : Str → Option ℤ

-- The first `n` bytes of a stream: a limited reader ends without an error once it has given them.
read_limited : ℕ → Str × Bool → Option Str
read_limited n (bytes, clean) =
    if leb n (length bytes) then some (take n bytes) else if clean then some bytes else none

-- What was read, unless it exceeds the cap of `n` bytes.
capped : ℕ → Option Str → Option Str
capped n none = none
capped n (some raw) = if ltb n (length raw) then none else some raw

-- Reading at most one byte more than the cap tells whether the cap is exceeded.
read_capped : ℕ → Str × Bool → Option Str
unfolding capped read_limited
read_capped n stream = capped n (read_limited (n + 1) stream)

pub truncate : Str → ℕ → Str
truncate s n = if leb (length s) n then s else take n s ++ str "...(truncated)"

-- The method `key` of a ring.
unfoldable pub key : Ring → Str → Option Str
key [] kid = none
key (k ∷ r) kid = if k.kid == kid && not (is_empty k.key) then some k.key else key r kid

module _ (prim : Primitives) where
  pub tag : Str → Str → Str → Str
  tag key domain packed = prim.hmac key (domain ++ packed)

  pub inflate : Str → Option Str
  inflate packed = read_capped max_payload_bytes (prim.flate_stream packed)

  pub envelope : Key → Str → Str → Str
  unfolding tag
  envelope k domain packed =
      k.kid ++ b'.' ∷ (encode_raw url packed ++ b'.' ∷ encode_raw url (tag k.key domain packed))

-- Step 5 of `open_envelope`.
pub check_window : ℤ → Duration → Instant → Result Error (Unit {0})
check_window iat_seconds ttl now =
    let iat = unix iat_seconds in
    let ahead = sub iat now in
    let age = sub now iat in
    if ltb_ℤ max_clock_skew ahead
    then err (iat_ahead ahead)
    else if ltb_ℤ (pos 0) ttl && ltb_ℤ ttl age
    then err (iat_old age ttl)
    else ok tt

abbrev pub or_fail : {A : Type 0} → Option A → Error → Result Error A
or_fail none e = err e
or_fail (some a) e = ok a

module _ {P : Type 0} (prim : Primitives) (codec : Codec P) where
  -- Everything after the key was chosen.
  pub seal_with : Key → Str → P → Result Error Str
  seal_with k domain payload = do
    raw ← or_fail (codec.marshal payload) not_marshalled
    packed ← or_fail (prim.flate raw) not_compressed
    ok (envelope prim k domain packed)

  -- Ring.Seal.
  pub seal : Ring → Str → P → Result Error Str
  seal [] domain payload = err ring_empty
  seal (k ∷ r) domain payload =
      if is_empty k.kid || contains k.kid b'.'
      then err (kid_unusable k.kid)
      else if is_empty k.key
      then err (key_missing k.kid)
      else seal_with k domain payload

  -- Steps 4 and 5, which run on authenticated bytes only.
  pub open_payload : Str → Duration → Instant → Result Error P
  open_payload packed ttl now = do
    raw ← or_fail (inflate prim packed) payload_corrupt
    payload ← or_fail (codec.unmarshal raw) payload_not_json
    iat ← or_fail (codec.unmarshal_iat raw) iat_not_json
    check_window iat ttl now
    ok payload

  -- Steps 2 and 3, on the three parts.
  open_parts : Ring → Str → Str → Str → Str → Duration → Instant → Result Error P
  open_parts r domain kid payload_part mac_part ttl now = do
    k ← or_fail (key r kid) (kid_not_in_ring (truncate kid max_logged_kid_len))
    packed ← or_fail (decode_raw url payload_part) payload_undecodable
    got ← or_fail (decode_raw url mac_part) mac_undecodable
    if got == tag prim k domain packed then open_payload packed ttl now else err mac_mismatch

  open_split : Ring → Str → List Str → Duration → Instant → Result Error P
  open_split r domain (kid ∷ payload_part ∷ mac_part ∷ []) ttl now =
      open_parts r domain kid payload_part mac_part ttl now
  open_split r domain parts ttl now = err (wrong_parts (length parts))

  -- Ring.Open, with the payload as the result in place of the destination pointer.
  pub open_envelope : Ring → Str → Str → Duration → Instant → Result Error P
  unfolding open_split
  open_envelope [] domain token ttl now = err ring_empty
  open_envelope (k ∷ r) domain token ttl now = open_split (k ∷ r) domain (split token b'.') ttl now
