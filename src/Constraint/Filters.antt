-- ===== src/Constraint/Filters.antt =====
-- How often a pointer occurs in what each filter of a constraint lets through and keeps.
use margot_project.Base.{
  ◌-◌, ◌≡◌, refl, ◌==◌, if◌then◌else◌, [], ◌∷◌, arith, count, OpPtr, OpStream, Value, min, Bool,
}
use margot_project.PtrSet.{emplace, erase, contains-count, count-emplace, count-erase}
use margot_project.Constraint.{
  Constraint, achieves, block, filter_initialize, filter_add, filter_remove,
  remove_blocked_ops_from, invalidate, validate,
}

-- The Operating Point achieves the goal as it was last checked.
abbrev pub passes : Constraint → OpPtr → Bool
passes c p = achieves c c.last_check_value p

-- A filter changes what is blocked, and nothing else.
abbrev pub SameFilter : Constraint → Constraint → Type 0
SameFilter c d =
    (d.target_goal ≡ c.target_goal)
    × (d.last_check_value ≡ c.last_check_value)
    × (d.knowledge_view ≡ c.knowledge_view)
    × (d.knowledge_adaptor ≡ c.knowledge_adaptor)

-- What filters never keep: the test of a constraint does not look at what is blocked.
achieves-blocked_ops :
    (c : Constraint) (s : OpStream) (v : Value) (p : OpPtr)
    → achieves (record c { blocked_ops = s }) v p ≡ achieves c v p
unfolding achieves
achieves-blocked_ops c s v p = refl

module _ (p : OpPtr) where
  pub count-filter_add :
      (c : Constraint) (xs : OpStream)
      → (count p (filter_add c xs).1 ≡ (if passes c p then count p xs else 0))
        × (count p (filter_add c xs).0.blocked_ops ≡ (
            if passes c p
            then count p c.blocked_ops
            else if count p c.blocked_ops == 0
            then (if count p xs == 0 then 0 else 1)
            else count p c.blocked_ops))
        × SameFilter c (filter_add c xs).0
  unfolding filter_add block
  count-filter_add c [] = (ground arith, ground arith, (refl, refl, refl, refl))
  count-filter_add c (op ∷ xs) = ground (
    arith,
    count-filter_add c xs,
    count-filter_add (block c op) xs,
    count-emplace p op c.blocked_ops,
    achieves-blocked_ops c (emplace op c.blocked_ops) c.last_check_value p,
  )

  pub count-filter_initialize :
      (c : Constraint) (xs : OpStream)
      → (count p (filter_initialize c xs).1 ≡ (if passes c p then 0 else count p xs))
        × (count p (filter_initialize c xs).0.blocked_ops ≡ (
            if passes c p
            then count p c.blocked_ops
            else if count p c.blocked_ops == 0
            then (if count p xs == 0 then 0 else 1)
            else count p c.blocked_ops))
        × SameFilter c (filter_initialize c xs).0
  unfolding filter_initialize block
  count-filter_initialize c [] = (ground arith, ground arith, (refl, refl, refl, refl))
  count-filter_initialize c (op ∷ xs) = ground (
    arith,
    count-filter_initialize c xs,
    count-filter_initialize (block c op) xs,
    count-emplace p op c.blocked_ops,
    achieves-blocked_ops c (emplace op c.blocked_ops) c.last_check_value p,
  )

  pub count-filter_remove :
      (c : Constraint) (xs : OpStream)
      → (count p (filter_remove c xs).1 ≡ count p xs - count p c.blocked_ops)
        × (count p (filter_remove c xs).0.blocked_ops ≡ count p c.blocked_ops - count p xs)
        × SameFilter c (filter_remove c xs).0
  unfolding filter_remove
  count-filter_remove c [] = (ground arith, ground arith, (refl, refl, refl, refl))
  count-filter_remove c (op ∷ xs) = ground (
    arith,
    count-filter_remove c xs,
    count-filter_remove (record c { blocked_ops = erase op c.blocked_ops }) xs,
    count-erase p op c.blocked_ops,
    contains-count op c.blocked_ops,
  )

  pub count-remove_blocked_ops_from :
      (c : Constraint) (xs : OpStream)
      → count p (remove_blocked_ops_from c xs)
        ≡ (if count p c.blocked_ops == 0 then count p xs else 0)
  unfolding remove_blocked_ops_from
  count-remove_blocked_ops_from c [] = ground arith
  count-remove_blocked_ops_from c (op ∷ xs) =
      ground (arith, count-remove_blocked_ops_from c xs, contains-count op c.blocked_ops)

  pub count-invalidate :
      (c : Constraint) (final : Value) (xs : OpStream)
      → count p (invalidate c final xs) ≡ (if achieves c final p then 0 else count p xs)
  unfolding invalidate
  count-invalidate c final [] = ground arith
  count-invalidate c final (op ∷ xs) = ground (arith, count-invalidate c final xs)

  pub count-validate :
      (c : Constraint) (final : Value) (xs : OpStream)
      → (count p (validate c final xs).1
          ≡ (if achieves c final p then min (count p xs) (count p c.blocked_ops) else 0))
        × (count p (validate c final xs).0.blocked_ops ≡ (
            if achieves c final p
            then count p c.blocked_ops - count p xs
            else count p c.blocked_ops))
        × SameFilter c (validate c final xs).0
  unfolding validate
  count-validate c final [] = (ground arith, ground arith, (refl, refl, refl, refl))
  count-validate c final (op ∷ xs) = ground (
    arith,
    count-validate c final xs,
    count-validate (record c { blocked_ops = erase op c.blocked_ops }) final xs,
    count-erase p op c.blocked_ops,
    contains-count op c.blocked_ops,
    achieves-blocked_ops c (erase op c.blocked_ops) final p,
  )
