-- ===== src/Manager/News.antt =====
-- Runs that return, and the errors of a graph that were not there before a change.
use glasskube.Base.{
  ◌≡◌, refl, true, false, List, [], ◌∷◌, arith, ok, err, ◌>>=◌, Bool-cases, inl, inr, IsIn, here,
  there, eq_iff, ◌&&◌,
}
use glasskube.Semver.{Semver}
use glasskube.Graph.Types.{PackageRef, DependencyError}
use glasskube.Manager.Types.{Run}
use glasskube.Manager.Verdict.{same_package, is_err_new, error_to_conflict, new_conflicts}

-- What holds of the result of a run, if it has one.
abbrev pub Returns : {V C A : Type 0} → (A → Type 0) → Run V C A → Type 0
Returns P (ok a) = P a
Returns P (err e) = Unit

eq_of_same_package : (a b : PackageRef) → same_package a b ≡ true → a ≡ b
unfolding same_package
eq_of_same_package a b e = ground (
  arith,
  eq_iff a.name b.name,
  eq_iff a.namespace b.namespace,
  eq_iff a.package_name b.package_name,
)

module _ {V C : Type 0} where
  pub Returns-bind :
      {A B : Type 0} (P : B → Type 0) (r : Run V C A) (f : A → Run V C B)
      → ((a : A) → r ≡ ok a → Returns P (f a))
      → Returns P (r >>= f)
  Returns-bind P (ok a) f each = each a refl
  Returns-bind P (err e) f each = tt

  pub Returns-ok :
      {A : Type 0} (P : A → Type 0) (r : Run V C A) (a : A) → Returns P r → r ≡ ok a → P a
  Returns-ok P (ok b) a holds e = let same : b ≡ a = cc in rw (← same) holds
  Returns-ok P (err x) a holds e = cc

  consed-not-nil :
      {A B : Type 0} (first : Run V C A) (rest : Run V C (List A))
      → (first >>= λ x. rest >>= λ xs. ok (x ∷ xs)) ≡ ok []
      → B
  consed-not-nil (ok x) (ok xs) e = cc
  consed-not-nil (ok x) (err stop) e = cc
  consed-not-nil (err stop) rest e = cc

  -- An error of the graph before, about the same two packages.
  abbrev pub WasThere : DependencyError V C → List (DependencyError V C) → Type 0
  WasThere e before =
      (old : DependencyError V C) × IsIn old before × (old.pkg ≡ e.pkg) × (old.dep ≡ e.dep)

  WasThere-of_not_new :
      (e : DependencyError V C) (before : List (DependencyError V C))
      → is_err_new e before ≡ false
      → WasThere e before
  unfolding is_err_new
  WasThere-of_not_new e [] new = cc
  WasThere-of_not_new e (old ∷ rest) new =
      elim (Bool-cases (same_package old.pkg e.pkg && same_package old.dep e.dep)) [
        | inl same ↦ (
          old,
          here refl,
          eq_of_same_package old.pkg e.pkg (ground (arith, same)),
          eq_of_same_package old.dep e.dep (ground (arith, same)),
        )
        | inr other ↦
            let (first, is_in, p, d) = WasThere-of_not_new e rest (rw other at new) in
            (first, there is_in, p, d)
      ]

module _ {V C : Type 0} (lib : Semver V C) where
  -- Without a conflict, every error was there before.
  pub new_conflicts-nil :
      (before es : List (DependencyError V C))
      → new_conflicts lib before es ≡ ok []
      → (e : DependencyError V C) → IsIn e es
      → WasThere e before
  unfolding new_conflicts
  new_conflicts-nil before [] nothing e is_in = elim is_in [ ]
  new_conflicts-nil before (x ∷ xs) nothing e is_in = elim (Bool-cases (is_err_new x before)) [
    | inr old ↦ elim is_in [
      | here p ↦ WasThere-of_not_new e before (rw (← p) old)
      | there deeper ↦ new_conflicts-nil before xs (rw old at nothing) e deeper
    ]
    | inl new ↦
        consed-not-nil (error_to_conflict lib x) (new_conflicts lib before xs) (rw new at nothing)
  ]
