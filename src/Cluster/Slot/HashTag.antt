-- ===== src/Cluster/Slot/HashTag.antt =====
-- What `get_hashtag` finds, and that keys with one tag share a slot: `get_hashtag` and
-- `Slot::for_key` of redis/src/cluster_handling/routing.rs.
use redis_rs.Base.{
  ℕ, suc, ◌+◌, ◌-◌, ◌%◌, ◌≡◌, refl, ◌≢◌, ◌↔◌, ap, sym, ◌∙◌, some, [], ◌∷◌, ◌++◌, Bytes, length,
  take, drop, ◌==◌, position_of, arith, ==_iff, inl, inr, Option-cases, Bool-cases, subst,
  take-length-append, ap₂,
}
use redis_rs.Cluster.Slot.{
  slot_size, slice, non_empty, close_tag, open_tag, get_hashtag, hashed_part, slot_for_key,
}

-- `b` does not occur.
abbrev pub Lacks : ℕ → Bytes → Type 0
Lacks b [] = Unit
Lacks b (x ∷ xs) = (x ≢ b) × Lacks b xs

-- The tag is what stands between the first `{` and the first `}` after it, if that is not empty.
pub data HasTag : Bytes → Bytes → Type 0 where
  tagged :
      (before : Bytes) (c : ℕ) (tag after : Bytes)
      → Lacks b'{' before
      → Lacks b'}' (c ∷ tag)
      → HasTag (before ++ b'{' ∷ ((c ∷ tag) ++ b'}' ∷ after)) (c ∷ tag)

position_of-append :
    (b : ℕ) (xs ys : Bytes) → Lacks b xs → position_of b (xs ++ b ∷ ys) ≡ some (length xs)
unfolding position_of
position_of-append b [] ys h = ground arith
position_of-append b (x ∷ xs) ys h = ground (arith, position_of-append b xs ys h.1)

drop-length : (xs ys : Bytes) → drop (length xs) (xs ++ ys) ≡ ys
drop-length [] ys = refl
drop-length (x ∷ xs) ys = drop-length xs ys

drop-length_suc : (xs : Bytes) (c : ℕ) (ys : Bytes) → drop (length xs + 1) (xs ++ c ∷ ys) ≡ ys
drop-length_suc [] c ys = refl
drop-length_suc (x ∷ xs) c ys =
    let e : suc (length xs) + 1 ≡ suc (length xs + 1) = omega arith in
    rw e (drop-length_suc xs c ys)

get_hashtag_of_HasTag : (key tag : Bytes) → HasTag key tag → get_hashtag key ≡ some tag
unfolding get_hashtag
get_hashtag_of_HasTag key tag (tagged before c t after h k) =
    let inner = (c ∷ t) ++ b'}' ∷ after in
    let whole = before ++ b'{' ∷ inner in
    let n = length before in
    let l = length (c ∷ t) in
    let len : n + suc l - (n + 1) ≡ l = omega arith in
    ap (open_tag whole) (position_of-append b'{' before inner h)
    ∙ (ap (λ s. close_tag whole n (position_of b'}' s)) (drop-length before (b'{' ∷ inner))
        ∙ (ap (close_tag whole n) (position_of-append b'}' (b'{' ∷ c ∷ t) after (omega arith, k))
            ∙ (ap (λ s. non_empty (take (n + suc l - (n + 1)) s))
                  (drop-length_suc before b'{' inner)
                ∙ (ap (λ j. non_empty (take j inner)) len
                    ∙ ap non_empty (take-length-append (c ∷ t) (b'}' ∷ after))))))

-- What a position found says of the list.
record Found (b : ℕ) (xs : Bytes) (i : ℕ) : Type 0 where
  before : Bytes
  after : Bytes
  split : xs ≡ before ++ b ∷ after
  at : length before ≡ i
  lacks : Lacks b before

Found-cons : (b x i : ℕ) (xs : Bytes) → x ≢ b → Found b xs i → Found b (x ∷ xs) (suc i)
Found-cons b x i xs h f = record {
  before = x ∷ f.before;
  after = f.after;
  split = ap (◌∷◌ x) f.split;
  at = ap suc f.at;
  lacks = (h, f.lacks);
}

position_of-Found : (b : ℕ) (xs : Bytes) (i : ℕ) → position_of b xs ≡ some i → Found b xs i
unfolding position_of
position_of-Found b [] i h = cc
position_of-Found b (x ∷ xs) i h = elim (Bool-cases (x == b)) [
  | inl e ↦
      let same : x ≡ b = (==_iff x b).0 e in
      let zero_at : 0 ≡ i = ground arith in
      record { before = []; after = xs; split = ap (λ c. c ∷ xs) same; at = zero_at; lacks = tt }
  | inr e ↦ elim (Option-cases (position_of b xs)) [
    | inl missing ↦ absurd (ground arith)
    | inr (j, found) ↦
        let i_eq : suc j ≡ i = ground arith in
        let other : x ≢ b = ground arith in
        subst (Found b (x ∷ xs)) i_eq (Found-cons b x j xs other (position_of-Found b xs j found))
  ]
]

-- The other direction.
HasTag-of_parts :
    (before tag' after tag : Bytes)
    → Lacks b'{' before
    → Lacks b'}' tag'
    → non_empty tag' ≡ some tag
    → HasTag (before ++ b'{' ∷ (tag' ++ b'}' ∷ after)) tag
unfolding non_empty
HasTag-of_parts before [] after tag h k e = cc
HasTag-of_parts before (c ∷ t) after tag h k e =
    let same : c ∷ t ≡ tag = cc in
    subst (HasTag (before ++ b'{' ∷ ((c ∷ t) ++ b'}' ∷ after))) same (tagged before c t after h k)

slice-parts :
    (before inner t after : Bytes)
    → inner ≡ t ++ b'}' ∷ after
    → slice (length before + 1) (length before + suc (length t)) (before ++ b'{' ∷ inner) ≡ t
unfolding slice
slice-parts before inner t after e =
    let n = length before in
    let len : n + suc (length t) - (n + 1) ≡ length t = omega arith in
    ap (take (n + suc (length t) - (n + 1))) (drop-length_suc before b'{' inner ∙ e)
    ∙ (ap (λ l. take l (t ++ b'}' ∷ after)) len ∙ take-length-append t (b'}' ∷ after))

HasTag-of_Found :
    (key tag : Bytes) (i j : ℕ) (f : Found b'{' key i) (before after : Bytes)
    → b'{' ∷ f.after ≡ before ++ b'}' ∷ after
    → length before ≡ j
    → Lacks b'}' before
    → non_empty (slice (i + 1) (i + j) key) ≡ some tag
    → HasTag key tag
HasTag-of_Found key tag i j f [] after e l k h = absurd (ground arith)
HasTag-of_Found key tag i j f (d ∷ t) after e l k h =
    let inner : f.after ≡ t ++ b'}' ∷ after = cc in
    let whole : key ≡ f.before ++ b'{' ∷ (t ++ b'}' ∷ after) =
      f.split ∙ ap (λ r. f.before ++ b'{' ∷ r) inner in
    let part : slice (i + 1) (i + j) key ≡ t =
      ap₂ (λ a b. slice (a + 1) (a + b) key) (sym f.at) (sym l)
      ∙ (ap (slice (length f.before + 1) (length f.before + suc (length t))) f.split
          ∙ slice-parts f.before f.after t after inner) in
    subst (λ x. HasTag x tag) (sym whole)
      (HasTag-of_parts f.before t after tag f.lacks k.1 (sym (ap non_empty part) ∙ h))

HasTag-of_get_hashtag : (key tag : Bytes) → get_hashtag key ≡ some tag → HasTag key tag
unfolding get_hashtag
HasTag-of_get_hashtag key tag h = elim (Option-cases (position_of b'{' key)) [
  | inl missing ↦ cc (ap (open_tag key) missing)
  | inr (i, opened) ↦
      let f = position_of-Found b'{' key i opened in
      let rest : drop i key ≡ b'{' ∷ f.after =
        ap (drop i) f.split
        ∙ (ap (λ n. drop n (f.before ++ b'{' ∷ f.after)) (sym f.at)
            ∙ drop-length f.before (b'{' ∷ f.after)) in
      let h' : close_tag key i (position_of b'}' (drop i key)) ≡ some tag =
        sym (ap (open_tag key) opened) ∙ h in
      elim (Option-cases (position_of b'}' (drop i key))) [
        | inl unclosed ↦ cc (ap (close_tag key i) unclosed)
        | inr (j, closed) ↦
            let g =
              position_of-Found b'}' (b'{' ∷ f.after) j
                (ap (position_of b'}') (sym rest) ∙ closed) in
            HasTag-of_Found key tag i j f g.before g.after g.split g.at g.lacks
              (sym (ap (close_tag key i) closed) ∙ h')
      ]
]

-- `get_hashtag` finds a tag exactly when the key has one: the bytes between the first `{` and the
-- first `}` after it, if there are any.
pub get_hashtag_iff : (key tag : Bytes) → (get_hashtag key ≡ some tag) ↔ HasTag key tag
get_hashtag_iff key tag = (HasTag-of_get_hashtag key tag, get_hashtag_of_HasTag key tag)

module _ (crc16 : Bytes → ℕ) where
  -- Keys with one hash tag share a slot, whatever else they are made of.
  pub slot_for_key-HasTag :
      (key key' tag : Bytes)
      → HasTag key tag
      → HasTag key' tag
      → slot_for_key crc16 key ≡ slot_for_key crc16 key'
  unfolding slot_for_key
  slot_for_key-HasTag key key' tag h k =
      slot_of_tag key (get_hashtag_of_HasTag key tag h)
      ∙ sym (slot_of_tag key' (get_hashtag_of_HasTag key' tag k))
    where
      slot_of_tag :
          (s : Bytes) → get_hashtag s ≡ some tag → slot_for_key crc16 s ≡ crc16 tag % slot_size
      slot_of_tag s e = ap (λ o. crc16 (hashed_part s o) % slot_size) e
