-- ===== src/Cluster/Fanout.antt =====
-- How the replies of the commands that go to several nodes are combined.
use redis_rs.Base.{
  ◌≡◌, refl, ◌↔◌, ◌⊎◌, Bool, true, false, ◌&&◌, not, String, Option, none, some, List, [], ◌∷◌,
  Bytes, codes, one_of, bytes_eq, bytes_eq_sound, if◌then◌else◌, Bool-cases, inl, inr, arith, subst,
  sym,
}
use redis_rs.Cluster.BaseRouting.{
  RouteBy, all_nodes, all_primaries, multi_shard, base_routing, all_nodes_commands,
  all_primaries_commands, keys_only_commands, key_value_commands, keys_and_last_commands,
  triple_commands,
}
use redis_rs.Cluster.ResponsePolicy.{for_command}

-- A test passed by every listed name is passed by what matches one of them.
all_of : (Bytes → Bool) → List String → Bool
all_of p [] = true
all_of p (w ∷ ws) = p (codes w) && all_of p ws

one_of-all_of :
    (p : Bytes → Bool) (s : Bytes) (ws : List String)
    → all_of p ws ≡ true
    → one_of s ws ≡ true
    → p s ≡ true
unfolding one_of all_of
one_of-all_of p s [] h k = cc
one_of-all_of p s (w ∷ ws) h k = elim (Bool-cases (bytes_eq s (codes w))) [
  | inl e ↦ subst (λ x. p x ≡ true) (sym (bytes_eq_sound s (codes w) e)) (ground arith)
  | inr e ↦ one_of-all_of p s ws (ground arith) (ground arith)
]

-- The routings that send one command to several nodes.
abbrev pub fans_out : RouteBy → Bool
fans_out all_nodes = true
fans_out all_primaries = true
fans_out (multi_shard p) = true
fans_out _ = false

abbrev is_some {ℓ} : {A : Type ℓ} → Option A → Bool
is_some none = false
is_some (some a) = true

abbrev pub without_policy : List String
without_policy = "DEBUG" ∷ "WAITAOF" ∷ []

-- Has a policy, or is one of those that have none; not both.
policy_test : Bytes → Bool
policy_test c =
    if one_of c without_policy then not (is_some (for_command c)) else is_some (for_command c)

policy_lists :
    ((all_of policy_test all_nodes_commands ≡ true)
      × (all_of policy_test all_primaries_commands ≡ true)
      × (all_of policy_test keys_only_commands ≡ true)
      × (all_of policy_test key_value_commands ≡ true)
      × (all_of policy_test keys_and_last_commands ≡ true)
      × (all_of policy_test triple_commands ≡ true))
unfolding all_of policy_test for_command one_of
policy_lists = (refl, refl, refl, refl, refl, refl)

listed :
    (c : Bytes)
    → fans_out (base_routing c) ≡ true
    → (one_of c all_nodes_commands ≡ true)
      ⊎ ((one_of c all_primaries_commands ≡ true)
          ⊎ ((one_of c keys_only_commands ≡ true)
              ⊎ ((one_of c key_value_commands ≡ true)
                  ⊎ ((one_of c keys_and_last_commands ≡ true)
                      ⊎ (one_of c triple_commands ≡ true)))))
unfolding base_routing
listed c h = ground arith

policy_of_listed : (c : Bytes) → fans_out (base_routing c) ≡ true → policy_test c ≡ true
policy_of_listed c h = elim (listed c h) [
  | inl m ↦ one_of-all_of policy_test c _ policy_lists.0 m
  | inr (inl m) ↦ one_of-all_of policy_test c _ policy_lists.1 m
  | inr (inr (inl m)) ↦ one_of-all_of policy_test c _ policy_lists.2 m
  | inr (inr (inr (inl m))) ↦ one_of-all_of policy_test c _ policy_lists.3 m
  | inr (inr (inr (inr (inl m)))) ↦ one_of-all_of policy_test c _ policy_lists.4 m
  | inr (inr (inr (inr (inr m)))) ↦ one_of-all_of policy_test c _ policy_lists.5 m
]

-- Of the commands that are sent to all nodes, to all primaries or are split by slot, exactly `DEBUG`
-- and `WAITAOF` have no policy by which their replies are combined.
pub for_command-base_routing :
    (c : Bytes)
    → fans_out (base_routing c) ≡ true
    → (for_command c ≡ none) ↔ (one_of c without_policy ≡ true)
unfolding policy_test
for_command-base_routing c h = exactly (policy_of_listed c h)
  where
    exactly : policy_test c ≡ true → (for_command c ≡ none) ↔ (one_of c without_policy ≡ true)
    exactly t = ground arith
