-- ===== src/Update/Await.antt =====
-- When the wait for an update ends well.
use mathlib.Core.Path.{subst}
use glasskube.Base.{
  String, ◌≡◌, ◌≢◌, ◌↔◌, refl, sym, ap, ◌∙◌, Bool, true, false, Option, none, some, List, [], ◌∷◌,
  ◌++◌, str_eq, eq_iff, Bool-cases, Option-cases, inl, inr, IsIn, here, there,
}
use glasskube.Controller.Conditions.{
  Condition, ConditionStatus, condition_true, condition_false, condition_unknown,
}
use glasskube.Update.Apply.{
  PackageEvent, WatchEvent, package_event, other_event, not_ready_of, is_false, await,
}

-- Whether an event of the package tells that it is not ready.
abbrev pub TellsFailure : String → WatchEvent → Type 0
TellsFailure uid v =
    (e : PackageEvent) × (c : Condition) × (v ≡ package_event e)
    × (e.uid ≡ uid)
    × (e.ready ≡ some c)
    × (c.status ≡ condition_false)

-- An event of the package tells that it has the version of its spec, and none before it that it is
-- not ready.
abbrev pub EndsWell : String → List WatchEvent → Type 0
EndsWell uid events =
    (before : List WatchEvent) × (e : PackageEvent) × (after : List WatchEvent) × (events
      ≡ before ++ package_event e ∷ after)
    × (e.uid ≡ uid)
    × (e.status_version ≡ e.version)
    × ((v : WatchEvent) → IsIn v before → ¬ TellsFailure uid v)

is_false_iff : (s : ConditionStatus) → (is_false s ≡ true) ↔ (s ≡ condition_false)
is_false_iff condition_true = (λ e. cc, λ e. cc)
is_false_iff condition_false = (λ e. refl, λ e. refl)
is_false_iff condition_unknown = (λ e. cc, λ e. cc)

not_ready_of-none :
    (o : Option Condition)
    → ((c : Condition) → o ≡ some c → c.status ≢ condition_false)
    → not_ready_of o ≡ none
unfolding not_ready_of
not_ready_of-none none h = refl
not_ready_of-none (some c) h = elim (Bool-cases (is_false c.status)) [
  | inl failed ↦ elim (h c refl ((is_false_iff c.status).0 failed)) [ ]
  | inr other ↦ rw other refl
]

none-not_ready_of :
    (o : Option Condition) {c : Condition}
    → not_ready_of o ≡ none
    → o ≡ some c
    → c.status ≢ condition_false
unfolding not_ready_of
none-not_ready_of none e is_c failed = cc
none-not_ready_of (some d) {c} e is_c failed =
    let same : d ≡ c = cc is_c in
    let told = (is_false_iff d.status).1 (ap (λ (x : Condition). x.status) same ∙ failed) in
    cc (rw told at e)

false-true : {A : Type 0} {b : Bool} → b ≡ false → b ≡ true → A
false-true e f = cc

module _ (uid : String) where
  ends_well-await :
      (before : List WatchEvent) (e : PackageEvent) (after : List WatchEvent)
      → e.uid ≡ uid
      → e.status_version ≡ e.version
      → ((v : WatchEvent) → IsIn v before → ¬ TellsFailure uid v)
      → await uid (before ++ package_event e ∷ after) ≡ none
  unfolding await
  ends_well-await [] e after same reached quiet =
      rw ((eq_iff e.uid uid).1 same, (eq_iff e.status_version e.version).1 reached) refl
  ends_well-await (other_event ∷ before) e after same reached quiet =
      ends_well-await before e after same reached (λ v m. quiet v (there m))
  ends_well-await (package_event d ∷ before) e after same reached quiet =
      let later = ends_well-await before e after same reached (λ v m. quiet v (there m)) in
      elim (Bool-cases (str_eq d.uid uid)) [
        | inr other ↦ rw other later
        | inl about_it ↦ elim (Bool-cases (str_eq d.status_version d.version)) [
          | inl done ↦ rw (about_it, done) refl
          | inr waits ↦
              rw
                (
                  about_it,
                  waits,
                  not_ready_of-none d.ready (λ c is_c failed.
                      quiet (package_event d) (here refl)
                        (d, c, refl, (eq_iff d.uid uid).0 about_it, is_c, failed)),
                )
                later
        ]
      ]

  later-EndsWell :
      (v : WatchEvent) {events : List WatchEvent}
      → ¬ TellsFailure uid v
      → EndsWell uid events
      → EndsWell uid (v ∷ events)
  later-EndsWell v not_v (before, e, after, split, same, reached, quiet) = (
    v ∷ before,
    e,
    after,
    ap (λ (vs : List WatchEvent). v ∷ vs) split,
    same,
    reached,
    λ w m tells. elim m [
      | here is_v ↦ not_v (subst (TellsFailure uid) (sym is_v) tells)
      | there m' ↦ quiet w m' tells
    ],
  )

  await-EndsWell : (events : List WatchEvent) → await uid events ≡ none → EndsWell uid events
  unfolding await
  await-EndsWell [] e = cc
  await-EndsWell (other_event ∷ events) e =
      later-EndsWell other_event (λ (d, c, is_d, same, ready, failed). cc is_d)
        (await-EndsWell events e)
  await-EndsWell (package_event d ∷ events) e = elim (Bool-cases (str_eq d.uid uid)) [
    | inr other ↦
        later-EndsWell (package_event d)
          (λ (d', c, is_d, same, ready, failed).
            let same_d : d ≡ d' = cc is_d in
            false-true other
              ((eq_iff d.uid uid).1 (ap (λ (x : PackageEvent). x.uid) same_d ∙ same)))
          (await-EndsWell events (rw other at e))
    | inl about_it ↦ elim (Bool-cases (str_eq d.status_version d.version)) [
      | inl done ↦ (
        [],
        d,
        events,
        refl,
        (eq_iff d.uid uid).0 about_it,
        (eq_iff d.status_version d.version).0 done,
        λ v m. elim m [ ],
      )
      | inr waits ↦ elim (Option-cases (not_ready_of d.ready)) [
        | inl quiet ↦
            later-EndsWell (package_event d)
              (λ (d', c, is_d, same, ready, failed).
                let same_d : d ≡ d' = cc is_d in
                none-not_ready_of d.ready quiet (ap (λ (x : PackageEvent). x.ready) same_d ∙ ready)
                  failed)
              (await-EndsWell events (rw (about_it, waits, quiet) at e))
        | inr (c, fails) ↦ cc (rw (about_it, waits, fails) at e)
      ]
    ]
  ]

-- The wait for an update ends without an error exactly if an event of the package tells that it has
-- the version of its spec, and no event of it before that one tells that it is not ready.
pub await_iff :
    (uid : String) (events : List WatchEvent) → (await uid events ≡ none) ↔ EndsWell uid events
await_iff uid events = (
  await-EndsWell uid events,
  λ (before, e, after, split, same, reached, quiet).
      rw split (ends_well-await uid before e after same reached quiet),
)
