-- ===== src/Clientset/Coherent.antt =====
-- The clientset stays coherent: what ForRepo leaves and returns.
use mathlib.Core.Path.{subst}
use glasskube.Base.{
  ℕ, ◌+◌, String, ◌≡◌, ◌⊎◌, refl, sym, ◌∙◌, Bool, true, false, Option, none, some, Result, ok, err,
  str_eq, eq_iff, if◌then◌else◌, Bool-cases, inl, inr,
}
use glasskube.Assoc.{get, put, get-put, string_key}
use glasskube.Clientset.Auth.{Authenticator, Failure, failed, crashed, new_authenticator}
use glasskube.Clientset.Select.{
  RepositorySpec, SpecifiedRepository, Client, default_client, error_client, ClientState, Clientset,
  ClientsetEnv, keep_client, make_client, reuse_or_make, for_repo,
}

module _ (env : ClientsetEnv) where
  -- The client reads the url of the spec with the authenticator of the spec.
  abbrev pub Reads : Client → RepositorySpec → Type 0
  Reads client spec =
      (id : ℕ) × (auth : Authenticator) × (client ≡ default_client id spec.url auth)
      × (new_authenticator env.secrets spec.auth ≡ ok auth)

  abbrev pub ReadsOrFails : Client → RepositorySpec → Type 0
  ReadsOrFails client spec = Reads client spec ⊎ ((e : String) × (client ≡ error_client e))

  -- Every client that is kept reads the repository that is kept with it.
  abbrev pub IsCoherent : Clientset → Type 0
  IsCoherent d =
      (name : String) (state : ClientState)
      → get d.clients name ≡ some state
      → (state.repo.name ≡ name) × Reads state.client state.repo.spec

  -- reflect.DeepEqual on the specs, which hold texts and pointers to them.
  abbrev pub TellsApart : Type 0
  TellsApart = (a b : RepositorySpec) → env.same_spec a b ≡ true → a ≡ b

  -- What holds where a call does not crash: it leaves a coherent clientset and such a client.
  abbrev pub Leaves : (Client → Type 0) → Option (Clientset × Client) → Type 0
  Leaves P none = Unit
  Leaves P (some (d, client)) = IsCoherent d × P client

  put-IsCoherent :
      (d : Clientset) (made : ℕ) (state : ClientState)
      → IsCoherent d
      → Reads state.client state.repo.spec
      → IsCoherent (record { clients = put d.clients state.repo.name state; made = made })
  put-IsCoherent d made state coherent reads name s e =
      let looked_up = sym (get-put d.clients state.repo.name name state) ∙ e in
      elim (Bool-cases (str_eq state.repo.name name)) [
        | inl same ↦
            let is_it : state ≡ s = cc (rw same at looked_up) in
            subst (λ (t : ClientState). (t.repo.name ≡ name) × Reads t.client t.repo.spec) is_it
              ((eq_iff state.repo.name name).0 same, reads)
        | inr other ↦ coherent name s (rw other at looked_up)
      ]

  keep_client-Leaves :
      (now : ℕ) (d : Clientset) (repo : SpecifiedRepository) (auth : Result Failure Authenticator)
      → new_authenticator env.secrets repo.spec.auth ≡ auth
      → IsCoherent d
      → Leaves (λ client. ReadsOrFails client repo.spec) (keep_client env now d repo auth)
  keep_client-Leaves now d repo (err (failed e)) made coherent = (coherent, inr (e, refl))
  keep_client-Leaves now d repo (err crashed) made coherent = tt
  keep_client-Leaves now d repo (ok auth) made coherent = (
    put-IsCoherent d (d.made + 1)
        (record {
          client = default_client d.made repo.spec.url auth;
          last_checked_repo_spec = now;
          repo = repo;
        })
        coherent (d.made, auth, refl, made),
    inl (d.made, auth, refl, made),
  )

  reuse_or_make-Leaves :
      (now : ℕ) (d : Clientset) (repo : SpecifiedRepository) (known : Option ClientState)
      → TellsApart
      → IsCoherent d
      → get d.clients repo.name ≡ known
      → Leaves (λ client. ReadsOrFails client repo.spec) (reuse_or_make env now d repo known)
  unfolding reuse_or_make make_client
  reuse_or_make-Leaves now d repo none apart coherent e =
      keep_client-Leaves now d repo (new_authenticator env.secrets repo.spec.auth) refl coherent
  reuse_or_make-Leaves now d repo (some state) apart coherent e =
      elim (Bool-cases (env.same_spec state.repo.spec repo.spec)) [
        | inl same ↦ rw same (
          coherent,
          inl (
              subst (Reads state.client) (apart state.repo.spec repo.spec same)
                (coherent repo.name state e).1),
        )
        | inr other ↦ rw other (
            keep_client-Leaves now d repo (new_authenticator env.secrets repo.spec.auth) refl
              coherent)
      ]

  pub for_repo-Leaves :
      (now : ℕ) (d : Clientset) (repo : SpecifiedRepository)
      → TellsApart
      → IsCoherent d
      → Leaves (λ client. ReadsOrFails client repo.spec) (for_repo env now d repo)
  unfolding for_repo
  for_repo-Leaves now d repo apart coherent =
      reuse_or_make-Leaves now d repo (get d.clients repo.name) apart coherent refl

  pub Leaves-mono :
      (P Q : Client → Type 0)
      → ((client : Client) → P client → Q client)
      → (o : Option (Clientset × Client)) → Leaves P o
      → Leaves Q o
  Leaves-mono P Q f none h = tt
  Leaves-mono P Q f (some (d, client)) (coherent, h) = (coherent, f client h)

  pub Leaves-if :
      (P : Client → Type 0) (b : Bool) (x y : Option (Clientset × Client))
      → (b ≡ true → Leaves P x)
      → (b ≡ false → Leaves P y)
      → Leaves P (if b then x else y)
  Leaves-if P true x y f g = f refl
  Leaves-if P false x y f g = g refl
