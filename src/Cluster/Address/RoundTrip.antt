-- ===== src/Cluster/Address/RoundTrip.antt =====
-- That the text of an address is read as the address.
use redis_rs.Base.{
  ℕ, ◌≤◌, ◌≡◌, refl, false, true, none, some, Bytes, [], ◌∷◌, ◌++◌, ◌==◌, IsDigits, one, more,
  is_digit, to_decimal, to_decimal-IsDigits, parse_unsigned-to_decimal, arith,
}
use redis_rs.Errors.Redis.{u16_max}
use redis_rs.Cluster.Address.{
  display, rsplit_once, trim_start_matches, trim_end_matches, address_of_parts, address_of_split,
  try_from,
}

-- The last byte of `c` and the bytes behind it.
abbrev pub last_byte : ℕ → Bytes → ℕ
last_byte c [] = c
last_byte c (d ∷ ds) = last_byte d ds

not_colon : (c : ℕ) → is_digit c ≡ true → (c == b':') ≡ false
unfolding is_digit
not_colon c h = ground arith

rsplit_once-digits : (ds : Bytes) → IsDigits ds → rsplit_once ds ≡ none
unfolding rsplit_once
rsplit_once-digits ds (one c h) = rw (not_colon c h) refl
rsplit_once-digits ds (more c cs h r) = rw (rsplit_once-digits cs r, not_colon c h) refl

rsplit_once-append :
    (host ds : Bytes) → IsDigits ds → rsplit_once (host ++ b':' ∷ ds) ≡ some (host, ds)
unfolding rsplit_once
rsplit_once-append [] ds r = rw (rsplit_once-digits ds r) refl
rsplit_once-append (c ∷ cs) ds r = rw (rsplit_once-append cs ds r) refl

trim_end_matches-host :
    (c : ℕ) (cs : Bytes) → (last_byte c cs == b']') ≡ false → trim_end_matches (c ∷ cs) ≡ c ∷ cs
unfolding trim_end_matches
trim_end_matches-host c [] h = rw h refl
trim_end_matches-host c (d ∷ ds) h = rw (trim_end_matches-host d ds h) refl

trim_start_matches-host :
    (c : ℕ) (cs : Bytes) → (c == b'[') ≡ false → trim_start_matches (c ∷ cs) ≡ c ∷ cs
unfolding trim_start_matches
trim_start_matches-host c cs h = rw h refl

-- The text of an address is read as that address, for every port of 16 bits and every host that is not
-- empty, does not begin with a bracket `[` and does not end with a bracket `]`; it may hold colons, as
-- that of an IPv6 address does.
pub try_from-display :
    (c : ℕ) (cs : Bytes) (port : ℕ)
    → (c == b'[') ≡ false
    → (last_byte c cs == b']') ≡ false
    → port ≤ u16_max
    → try_from (display (record { host = c ∷ cs; port = port }))
      ≡ some (record { host = c ∷ cs; port = port })
unfolding try_from display address_of_split
try_from-display c cs port opens closes bound =
    rw
      (
        rsplit_once-append (c ∷ cs) (to_decimal port) (to_decimal-IsDigits port),
        trim_start_matches-host c cs opens,
        trim_end_matches-host c cs closes,
        parse_unsigned-to_decimal u16_max port bound,
      )
      (unfold address_of_parts in refl)
