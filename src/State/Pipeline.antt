-- ===== src/State/Pipeline.antt =====
-- The invariant of a state: its constraints and its rank split the knowledge among themselves, and the
-- loops over the constraints keep to it.
use margot_project.Base.{
  ℕ, if◌then◌else◌, Bool, true, false, not, ◌&&◌, ◌||◌, [], ◌∷◌, ◌++◌, OpPtr, OpStream, ◌≡◌, arith,
  count, Enumerates, fun_ext, subst, sym, Bool-cases, inl, inr,
}
use margot_project.View.{range}
use margot_project.View.Laws.{IsSorted}
use margot_project.Constraint.{
  Constraint, achieves, filter_add, filter_remove, remove_blocked_ops_from,
}
use margot_project.Constraint.Filters.{
  passes, SameFilter, count-filter_add, count-filter_remove, count-remove_blocked_ops_from,
}
use margot_project.Rank.{Rank, to_stream}
use margot_project.Rank
use margot_project.Rank.Laws.{
  add-IsSorted_rank, remove-IsSorted_rank, count-to_stream-add, count-to_stream-remove,
}
use margot_project.State.Stack.{ConstraintStack, push_down, remove_down, prune_higher}

-- A set of Operating Points, by its test.
abbrev pub OpSet : Type 0
OpSet = OpPtr → Bool

-- The view of the constraint is sorted and holds the knowledge `K`.
abbrev pub Views : OpSet → Constraint → Type 0
Views K c = IsSorted c.knowledge_view × Enumerates (range c.knowledge_view) K

-- Of the Operating Points `f` that come from above, each constraint blocks those that fail it, and hands
-- the others on; the rank holds what is left.
abbrev pub Pipe : OpSet → OpSet → ConstraintStack → Rank → Type 0
Pipe K f [] r = IsSorted r.view × Enumerates (to_stream r) f
Pipe K f ((k, c) ∷ cs) r =
    Views K c
    × Enumerates c.blocked_ops (λ p. f p && not (passes c p))
    × Pipe K (λ p. f p && passes c p) cs r

pub Pipe-cong :
    (K : OpSet) {f g : OpSet} (cs : ConstraintStack) (r : Rank)
    → ((p : OpPtr) → f p ≡ g p)
    → Pipe K f cs r
    → Pipe K g cs r
Pipe-cong K cs r e h = subst (λ k. Pipe K k cs r) (fun_ext e) h

-- A filter that differs in what it blocks tests and views the same.
pub passes-SameFilter : (c d : Constraint) (p : OpPtr) → SameFilter c d → passes d p ≡ passes c p
unfolding achieves
passes-SameFilter c d p s = cc (s.0, s.1, s.2)

pub Views-SameFilter : (K : OpSet) (c d : Constraint) → SameFilter c d → Views K c → Views K d
Views-SameFilter K c d s h = subst (λ v. IsSorted v × Enumerates (range v) K) (sym s.2) h

-- New Operating Points that flow down the constraints end up where they belong.
pub push_down-Pipe :
    (K f g : OpSet) (cs : ConstraintStack) (r : Rank) (xs : OpStream)
    → ((p : OpPtr) → f p ≡ true → g p ≡ false)
    → Enumerates xs g
    → Pipe K f cs r
    → let (cs', rest) = push_down cs xs in Pipe K (λ p. f p || g p) cs' (Rank.add r rest)
unfolding push_down
push_down-Pipe K f g [] r xs apart e h = (
  add-IsSorted_rank r xs h.0,
  λ p. ground (arith, count-to_stream-add r p xs, e p, h.1 p, apart p),
)
push_down-Pipe K f g ((k, c) ∷ cs) r xs apart e h = (
  Views-SameFilter K c (filter_add c xs).0 same h.0,
  (λ p. ground (
    arith,
    count-filter_add p c xs,
    e p,
    h.1 p,
    apart p,
    passes-SameFilter c (filter_add c xs).0 p same,
  )),
  Pipe-cong K _ _ (λ p. ground (arith, passes-SameFilter c (filter_add c xs).0 p same))
      (push_down-Pipe K (λ p. f p && passes c p) (λ p. g p && passes c p) cs r (filter_add c xs).1
        (λ p t. ground (arith, apart p)) (λ p. ground (arith, count-filter_add p c xs, e p)) h.2),
)
  where
    same : SameFilter c (filter_add c xs).0
    same = (count-filter_add 0 c xs).2

-- Operating Points that are withdrawn leave the place that they were in.
pub remove_down-Pipe :
    (K f g : OpSet) (cs : ConstraintStack) (r : Rank) (xs : OpStream)
    → Enumerates xs g
    → Pipe K f cs r
    → let (cs', rest) = remove_down cs xs in Pipe K (λ p. f p && not (g p)) cs' (Rank.remove r rest)
unfolding remove_down
remove_down-Pipe K f g [] r xs e h = (
  remove-IsSorted_rank r xs h.0,
  λ p. ground (arith, count-to_stream-remove r p xs h.0, e p, h.1 p),
)
remove_down-Pipe K f g ((k, c) ∷ cs) r xs e h = (
  Views-SameFilter K c (filter_remove c xs).0 same h.0,
  (λ p. ground (
    arith,
    count-filter_remove p c xs,
    e p,
    h.1 p,
    passes-SameFilter c (filter_remove c xs).0 p same,
  )),
  Pipe-cong K _ _ (λ p. ground (arith, passes-SameFilter c (filter_remove c xs).0 p same))
      (remove_down-Pipe K (λ p. f p && passes c p) (λ p. g p && not (f p && not (passes c p))) cs r
        (filter_remove c xs).1 (λ p. ground (arith, count-filter_remove p c xs, e p, h.1 p)) h.2),
)
  where
    same : SameFilter c (filter_remove c xs).0
    same = (count-filter_remove 0 c xs).2

-- A pipeline of which the end is open: `g` is what the constraints let through.
abbrev pub OpenPipe : OpSet → OpSet → ConstraintStack → OpSet → Type 0
OpenPipe K f [] g = (p : OpPtr) → f p ≡ g p
OpenPipe K f ((k, c) ∷ cs) g =
    Views K c
    × Enumerates c.blocked_ops (λ p. f p && not (passes c p))
    × OpenPipe K (λ p. f p && passes c p) cs g

pub OpenPipe-append :
    (K f g : OpSet) (higher cs : ConstraintStack) (r : Rank)
    → OpenPipe K f higher g
    → Pipe K g cs r
    → Pipe K f (higher ++ cs) r
OpenPipe-append K f g [] cs r o h = Pipe-cong K cs r (λ p. sym (o p)) h
OpenPipe-append K f g ((k, c) ∷ higher) cs r o h =
    (o.0, o.1, OpenPipe-append K (λ p. f p && passes c p) g higher cs r o.2 h)

pub OpenPipe-snoc :
    (K f g : OpSet) (higher : ConstraintStack) (k : ℕ) (c : Constraint)
    → OpenPipe K f higher g
    → Views K c
    → Enumerates c.blocked_ops (λ p. g p && not (passes c p))
    → OpenPipe K f (higher ++ ((k, c) ∷ [])) (λ p. g p && passes c p)
OpenPipe-snoc K f g [] k c o v b = (v, (λ p. ground (arith, b p, o p)), (λ p. ground (arith, o p)))
OpenPipe-snoc K f g ((j, d) ∷ higher) k c o v b =
    (o.0, o.1, OpenPipe-snoc K (λ p. f p && passes d p) g higher k c o.2 v b)

pub prune_higher-absent :
    (higher : ConstraintStack) (xs : OpStream) (p : OpPtr)
    → count p xs ≡ 0
    → count p (prune_higher higher xs) ≡ 0
unfolding prune_higher
prune_higher-absent [] xs p h = h
prune_higher-absent ((k, c) ∷ higher) xs p h =
    prune_higher-absent higher (remove_blocked_ops_from c xs) p
      (ground (arith, count-remove_blocked_ops_from p c xs))

pub OpenPipe-outside :
    (K f g : OpSet) (higher : ConstraintStack) (p : OpPtr)
    → OpenPipe K f higher g
    → f p ≡ false
    → g p ≡ false
OpenPipe-outside K f g [] p o t = ground (arith, o p)
OpenPipe-outside K f g ((k, c) ∷ higher) p o t =
    OpenPipe-outside K (λ q. f q && passes c q) g higher p o.2 (ground arith)

-- What no constraint of higher priority blocks is what comes down to the next one.
pub count-prune_higher :
    (K f g : OpSet) (higher : ConstraintStack) (xs : OpStream) (p : OpPtr)
    → OpenPipe K f higher g
    → f p ≡ true
    → count p (prune_higher higher xs) ≡ (if g p then count p xs else 0)
unfolding prune_higher
count-prune_higher K f g [] xs p o t = ground (arith, o p)
count-prune_higher K f g ((k, c) ∷ higher) xs p o t = elim (Bool-cases (passes c p)) [
  | inl pass ↦ ground (
    arith,
    o.1 p,
    count-remove_blocked_ops_from p c xs,
    count-prune_higher K (λ q. f q && passes c q) g higher (remove_blocked_ops_from c xs) p o.2
        (ground arith),
  )
  | inr fail ↦ ground (
    arith,
    o.1 p,
    count-remove_blocked_ops_from p c xs,
    prune_higher-absent higher (remove_blocked_ops_from c xs) p,
    OpenPipe-outside K (λ q. f q && passes c q) g higher p o.2 (ground arith),
  )
]
