-- ===== src/Manager/Chosen.antt =====
-- The version that addDependencies of internal/dependency/manager.go chooses was parsed by getVersions.
use glasskube.Base.{
  String, ◌≡◌, refl, sym, ◌&&◌, Option, none, some, List, [], ◌∷◌, Result, ok, err, bind-eq-ok,
  Bool-cases, inl, inr, IsIn, here, there,
}
use mathlib.Core.Path.{subst}
use glasskube.Semver.{Semver}
use glasskube.Graph.Types.{VertexRef, Graph}
use glasskube.Graph.Queries.{max, max_from, constraints, allowed, better}
use glasskube.Manager.Types.{Call, returned, panicked, Faults, RepoAdapter}
use glasskube.Manager.Resolve.{get_versions, parse_versions, parsed}

module _ {V C : Type 0} (lib : Semver V C) (P : V → Type 0) where
  max_from-has :
      (cs : List C) (m : Option V) (vs : List V) (r : V)
      → ((v : V) → m ≡ some v → P v)
      → ((v : V) → IsIn v vs → P v)
      → max_from lib cs m vs ≡ some r
      → P r
  unfolding max_from
  max_from-has cs m [] r first each e = first r e
  max_from-has cs m (v ∷ vs) r first each e =
      elim (Bool-cases (better lib m v && allowed lib cs v)) [
        | inl change ↦
            max_from-has cs (some v) vs r (λ w is_w. each w (here (cc is_w)))
              (λ w n. each w (there n)) (rw change at e)
        | inr keep ↦ max_from-has cs m vs r first (λ w n. each w (there n)) (rw keep at e)
      ]

  -- What holds of all versions holds of the one that Max returns.
  pub max-has :
      (g : Graph V C) (of : VertexRef) (vs : List V) (r : V)
      → ((v : V) → IsIn v vs → P v)
      → max lib g of vs ≡ some r
      → P r
  unfolding max
  max-has g of vs r each e = max_from-has (constraints g of) none vs r (λ v is_v. cc) each e

  module _ (parses : (s : String) (v : V) → lib.new_version s ≡ ok v → P v) where
    parse_versions-has :
        (repo : RepoAdapter) (ss : List String) (vs : List V) (v : V)
        → parse_versions lib repo ss ≡ ok vs
        → IsIn v vs
        → P v
    unfolding parse_versions
    parse_versions-has repo [] vs v e m =
        let none_there : [] ≡ vs = cc e in elim (subst (IsIn v) (sym none_there) m) [ ]
    parse_versions-has repo (s ∷ ss) vs v e m =
        let (w, is_w, e') = bind-eq-ok (lib.new_version s) _ e in
        let (ws, is_ws, same) = bind-eq-ok (parse_versions lib repo ss) _ e' in
        let is_vs : w ∷ ws ≡ vs = cc same in
        elim (subst (IsIn v) (sym is_vs) m) [
          | here is_v ↦ subst P is_v (parses s w is_w)
          | there later ↦ parse_versions-has repo ss ws v is_ws later
        ]

    parsed-has :
        (repo : RepoAdapter) (errs errs' : Faults) (ss : List String) (r : Result String (List V))
        (vs : List V) (v : V)
        → parse_versions lib repo ss ≡ r
        → parsed lib repo errs r ≡ returned vs errs'
        → IsIn v vs
        → P v
    unfolding parsed
    parsed-has repo errs errs' ss (err e) vs v is_r same m =
        let none_there : [] ≡ vs = cc same in elim (subst (IsIn v) (sym none_there) m) [ ]
    parsed-has repo errs errs' ss (ok ws) vs v is_r same m =
        let is_vs : ws ≡ vs = cc same in
        parse_versions-has repo ss ws v is_r (subst (IsIn v) (sym is_vs) m)

    replied-has :
        (repo : RepoAdapter) (name : String) (vs : List V) (errs : Faults) (v : V)
        (reply : Call (List String))
        → repo.get_versions name ≡ reply
        → get_versions lib repo name ≡ returned vs errs
        → IsIn v vs
        → P v
    unfolding get_versions
    replied-has repo name vs errs v panicked is_reply e m = cc (rw (is_reply, get_versions) at e)
    replied-has repo name vs errs v (returned ss repo_err) is_reply e m =
        parsed-has repo repo_err errs ss (parse_versions lib repo ss) vs v refl
          (rw (is_reply, get_versions) at e) m

    -- What holds of every version that can be parsed holds of those that getVersions returns.
    pub get_versions-has :
        (repo : RepoAdapter) (name : String) (vs : List V) (errs : Faults) (v : V)
        → get_versions lib repo name ≡ returned vs errs
        → IsIn v vs
        → P v
    get_versions-has repo name vs errs v =
        replied-has repo name vs errs v (repo.get_versions name) refl
