-- ===== src/Update/Applied.antt =====
-- What Apply of pkg/update/update.go has done where it succeeds.
use glasskube.Base.{
  ◌≡◌, ◌≢◌, ◌↔◌, refl, sym, ap, ◌∙◌, true, Option, none, some, List, [], ◌∷◌, ◌++◌, Result, ok,
  Bool-cases, Result-cases, inl, inr, str_eq, eq_iff,
}
use mathlib.Core.Path.{subst}
use mathlib.Core.List.{append_assoc, append-nil}
use glasskube.Manager.Types.{InstalledPackage}
use glasskube.Update.Transaction.{UpdateTransactionItem, update_required}
use glasskube.Update.Apply.{
  UpdateFault, AwaitError, ApplyError, Cluster, ApplyUpdateOptions, WatchEvent, await_update,
  update_package, waited, stop_or, finish_update, apply_from, apply_transaction,
}
use glasskube.Update.Await.{EndsWell, await_iff}

module _ {W : Type 0} (cluster : Cluster W) (opts : ApplyUpdateOptions) where
  -- The package of the item, at the version of the item.
  abbrev pub wanted : UpdateTransactionItem → InstalledPackage
  wanted item = record (item.package_of) { version = item.version }

  -- What is watched from the state ends well for the package.
  abbrev pub Arrives : W → InstalledPackage → Type 0
  Arrives w pkg =
      (events : List WatchEvent) × (cluster.watch w pkg ≡ ok events)
      × EndsWell (cluster.uid_of pkg) events

  -- The server goes from one state to the other by the updates of the items that name a version, in
  -- their order. Each succeeds, in one of its tries, and where Apply blocks, the events that are
  -- watched after it end well, before the next one is made. The packages are those that are updated.
  pub data Updates : List UpdateTransactionItem → W → W → List InstalledPackage → Type 0 where
    nothing : {w : W} → Updates [] w w []
    skip :
        {item : UpdateTransactionItem} {items : List UpdateTransactionItem} {w w' : W}
        {pkgs : List InstalledPackage}
        → item.version ≡ ""
        → Updates items w w' pkgs
        → Updates (item ∷ items) w w' pkgs
    update :
        {item : UpdateTransactionItem} {items : List UpdateTransactionItem} {w v w' : W}
        {pkgs : List InstalledPackage}
        → item.version ≢ ""
        → cluster.retry (λ u. cluster.update u (wanted item) opts.dry_run) w ≡ (v, none)
        → (opts.blocking ≡ true → Arrives v (wanted item))
        → Updates items v w' pkgs
        → Updates (item ∷ items) w w' (wanted item ∷ pkgs)

  Arrives-iff :
      (v : W) (pkg : InstalledPackage) → (await_update cluster opts v pkg ≡ none) ↔ Arrives v pkg
  unfolding await_update
  Arrives-iff v pkg = elim (Result-cases (cluster.watch v pkg)) [
    | inl (events, watched) ↦
        rw (watched, await_update)
          (
            λ e. (events, refl, (await_iff (cluster.uid_of pkg) events).0 e),
            λ (events', same, well).
                let is_events : events ≡ events' = cc same in
                (await_iff (cluster.uid_of pkg) events).1 (
                  subst (λ (es : List WatchEvent). EndsWell (cluster.uid_of pkg) es) (sym is_events)
                    well),
          )
    | inr (fault, failed) ↦ rw (failed, await_update) (λ e. cc e, λ (events', same, well). cc same)
  ]

  waited_iff :
      (v : W) (item : UpdateTransactionItem)
      → (waited cluster opts v item ≡ none) ↔ (opts.blocking ≡ true → Arrives v (wanted item))
  unfolding waited
  waited_iff v item = elim (Bool-cases opts.blocking) [
    | inl blocks ↦
        rw (blocks, waited)
          (
            λ e b. (Arrives-iff v (wanted item)).0 e,
            λ arrives. (Arrives-iff v (wanted item)).1 (arrives refl),
          )
    | inr passes ↦ rw (passes, waited) (λ e b. cc b, λ arrives. refl)
  ]

  stop_or-ok :
      (item : UpdateTransactionItem) (w : W) (failure : Option AwaitError)
      (next : W × Result ApplyError (List InstalledPackage)) {w' : W} {pkgs : List InstalledPackage}
      → stop_or cluster opts item w failure next ≡ (w', ok pkgs)
      → (failure ≡ none) × (next ≡ (w', ok pkgs))
  stop_or-ok item w none next e = (refl, e)
  stop_or-ok item w (some f) next {w'} {pkgs} e =
      cc (ap (λ (r : W × Result ApplyError (List InstalledPackage)). r.1) e)

  finish_update-ok :
      (item : UpdateTransactionItem) (w : W) (failure : Option UpdateFault)
      (next : W × Result ApplyError (List InstalledPackage)) {w' : W} {pkgs : List InstalledPackage}
      → finish_update cluster opts item w failure next ≡ (w', ok pkgs)
      → (failure ≡ none) × (waited cluster opts w item ≡ none) × (next ≡ (w', ok pkgs))
  unfolding finish_update
  finish_update-ok item w (some f) next e =
      cc (ap (λ (r : W × Result ApplyError (List InstalledPackage)). r.1) e)
  finish_update-ok item w none next e =
      let (no_wait, same) = stop_or-ok item w (waited cluster opts w item) next e in
      (refl, no_wait, same)

  apply_from-Updates :
      (items : List UpdateTransactionItem) (w w' : W) (done pkgs : List InstalledPackage)
      → apply_from cluster opts items w done ≡ (w', ok pkgs)
      → (more : List InstalledPackage) × (pkgs ≡ done ++ more) × Updates items w w' more
  unfolding apply_from update_required update_package
  apply_from-Updates [] w w' done pkgs e =
      let is_w : w ≡ w' = ap (λ (r : W × Result ApplyError (List InstalledPackage)). r.0) e in
      let is_ok = ap (λ (r : W × Result ApplyError (List InstalledPackage)). r.1) e in
      let is_pkgs : done ≡ pkgs = cc is_ok in
      ([], sym is_pkgs ∙ sym (append-nil done), subst (λ (v : W). Updates [] w v []) is_w nothing)
  apply_from-Updates (item ∷ items) w w' done pkgs e = elim (Bool-cases (str_eq item.version "")) [
    | inl unnamed ↦
        let (more, same, run) = apply_from-Updates items w w' done pkgs (rw unnamed at e) in
        (more, same, skip ((eq_iff item.version "").0 unnamed) run)
    | inr named ↦
        let tried = cluster.retry (λ u. cluster.update u (wanted item) opts.dry_run) w in
        let (succeeds, no_wait, e') =
          finish_update-ok item tried.0 tried.1
            (apply_from cluster opts items tried.0 (done ++ wanted item ∷ [])) (rw named at e) in
        let (more, same, run) =
          apply_from-Updates items tried.0 w' (done ++ wanted item ∷ []) pkgs e' in
        (
          wanted item ∷ more,
          same ∙ append_assoc done (wanted item ∷ []) more,
          update (λ empty. cc (named, (eq_iff item.version "").1 empty))
              (ap (λ (f : Option UpdateFault). (tried.0, f)) succeeds)
              ((waited_iff tried.0 item).0 no_wait) run,
        )
  ]

  Updates-apply_from :
      (items : List UpdateTransactionItem) (w w' : W) (done more : List InstalledPackage)
      → Updates items w w' more
      → apply_from cluster opts items w done ≡ (w', ok (done ++ more))
  unfolding apply_from update_required update_package finish_update
  Updates-apply_from items w w' done more nothing = rw (append-nil done) refl
  Updates-apply_from items w w' done more (skip {item = item} {items = rest} unnamed run) =
      rw ((eq_iff item.version "").1 unnamed) (Updates-apply_from rest w w' done more run)
  Updates-apply_from items w w' done more
        (update {item = item} {items = rest} {v = v} {pkgs = pkgs} named tried arrives run) =
      let later = Updates-apply_from rest v w' (done ++ wanted item ∷ []) pkgs run in
      let no_wait = (waited_iff v item).1 arrives in
      elim (Bool-cases (str_eq item.version "")) [
        | inl unnamed ↦ absurd (named ((eq_iff item.version "").0 unnamed))
        | inr other ↦
            rw (other, tried, no_wait)
              (later
                ∙ ap (λ (ps : List InstalledPackage). (w', ok ps))
                    (append_assoc done (wanted item ∷ []) pkgs))
      ]

-- Apply succeeds, with a state of the server and packages, exactly where it goes there by the updates
-- of the items that name a version, in their order, which are the packages: each update succeeds, and
-- where Apply blocks, the events that are watched after it end well, before the next one is made.
pub apply_transaction_iff :
    {W : Type 0} (cluster : Cluster W) (opts : ApplyUpdateOptions)
    (items : List UpdateTransactionItem) (w w' : W) (pkgs : List InstalledPackage)
    → (apply_transaction cluster opts items w ≡ (w', ok pkgs))
      ↔ Updates cluster opts items w w' pkgs
unfolding apply_transaction
apply_transaction_iff cluster opts items w w' pkgs = (
  λ e.
      let (more, same, run) = apply_from-Updates cluster opts items w w' [] pkgs e in
      subst (Updates cluster opts items w w') (sym same) run,
  λ run. Updates-apply_from cluster opts items w w' [] pkgs run,
)
