-- ===== src/Webhook/Repositories.antt =====
-- PackageRepositoryValidatingWebhook of internal/webhook/packagerepository_webhook.go.
use glasskube.Base.{
  String, ◌≡◌, ◌≢◌, refl, sym, ap, ◌∙◌, ◌⊎◌, ◌↔◌, List, [], ◌∷◌, Result, ok, err, str_eq, eq_iff,
  if◌then◌else◌, is_empty, is_empty_iff, IsIn, here, there, Bool-cases, inl, inr,
}
use glasskube.Controller.Types.{PackageInfoTemplate}

-- What the webhook reads of a PackageRepository.
pub record Repository : Type 0 where
  pub name : String
  pub url : String

-- runtime.Object, with the type assertion to *PackageRepository.
pub data RepositoryObject : Type 0 where
  repository_object : Repository → RepositoryObject
  other_object : RepositoryObject

pub data RepositoryRejection : Type 0 where
  invalid_object : RepositoryRejection
  list_failed : String → RepositoryRejection
  packages_installed : List PackageInfoTemplate → RepositoryRejection

abbrev pub RepositoryAdmission : Type 0
RepositoryAdmission = Result RepositoryRejection (Unit {0})

-- repoPkgLs: the specs of the PackageInfos from the repository.
unfoldable pub infos_of : String → List PackageInfoTemplate → List PackageInfoTemplate
infos_of name [] = []
infos_of name (spec ∷ specs) =
    if str_eq spec.repository_name name then spec ∷ infos_of name specs else infos_of name specs

-- `infos` is the answer to the list of the PackageInfos, by their specs.
module _ (infos : Result String (List PackageInfoTemplate)) where
  abbrev pub unused : List PackageInfoTemplate → RepositoryAdmission
  unused specs = if is_empty specs then ok tt else err (packages_installed specs)

  unfoldable pub validate_update_or_delete : Repository → RepositoryAdmission
  unfolding infos_of
  validate_update_or_delete repo = elim infos [
    | err e ↦ err (list_failed e)
    | ok specs ↦ unused (infos_of repo.name specs)
  ]

  unfoldable pub validate_repository_create : RepositoryObject → RepositoryAdmission
  validate_repository_create (repository_object repo) = ok tt
  validate_repository_create other_object = err invalid_object

  unfoldable pub validate_repository_update :
      RepositoryObject → RepositoryObject → RepositoryAdmission
  unfolding validate_update_or_delete
  validate_repository_update (repository_object old) (repository_object new) =
      if str_eq old.url new.url then ok tt else validate_update_or_delete old
  validate_repository_update (repository_object old) other_object = err invalid_object
  validate_repository_update other_object new = err invalid_object

  unfoldable pub validate_repository_delete : RepositoryObject → RepositoryAdmission
  unfolding validate_update_or_delete
  validate_repository_delete (repository_object repo) = validate_update_or_delete repo
  validate_repository_delete other_object = err invalid_object

-- No PackageInfo of the list names the repository.
abbrev pub IsUnused : String → List PackageInfoTemplate → Type 0
IsUnused name specs = (spec : PackageInfoTemplate) → IsIn spec specs → spec.repository_name ≢ name

infos_of-nil :
    (name : String) (specs : List PackageInfoTemplate)
    → infos_of name specs ≡ []
    → IsUnused name specs
unfolding infos_of
infos_of-nil name [] e spec m same = elim m [ ]
infos_of-nil name (s ∷ specs) e spec m same = elim (Bool-cases (str_eq s.repository_name name)) [
  | inl from_it ↦ cc (rw from_it at e)
  | inr other ↦ elim m [
    | here is_spec ↦ cc (
      other,
      (eq_iff s.repository_name name).1
          (ap (λ (x : PackageInfoTemplate). x.repository_name) is_spec ∙ same),
    )
    | there later ↦ infos_of-nil name specs (rw other at e) spec later same
  ]
]

nil-infos_of :
    (name : String) (specs : List PackageInfoTemplate)
    → IsUnused name specs
    → infos_of name specs ≡ []
unfolding infos_of
nil-infos_of name [] unused = refl
nil-infos_of name (s ∷ specs) unused = elim (Bool-cases (str_eq s.repository_name name)) [
  | inl from_it ↦ absurd (unused s (here refl) ((eq_iff s.repository_name name).0 from_it))
  | inr other ↦ rw other (nil-infos_of name specs (λ spec m. unused spec (there m)))
]

-- The PackageInfo comes from the repository: it names it, or it names none and the repository is the
-- default one, which ForRepoWithName takes then.
abbrev pub ComesFrom : String → String → PackageInfoTemplate → Type 0
ComesFrom default name spec =
    (spec.repository_name ≡ name) ⊎ ((spec.repository_name ≡ "") × (default ≡ name))

-- No PackageInfo of the list comes from the repository, but as from the default one.
abbrev pub IsLeft : String → String → List PackageInfoTemplate → Type 0
IsLeft default name specs =
    (spec : PackageInfoTemplate)
    → IsIn spec specs
    → ComesFrom default name spec
    → (spec.repository_name ≡ "") × (default ≡ name)

IsUnused-IsLeft :
    (default name : String) (specs : List PackageInfoTemplate)
    → name ≢ ""
    → IsUnused name specs ↔ IsLeft default name specs
IsUnused-IsLeft default name specs named = (
  λ unused spec m from. elim from [
    | inl names ↦ absurd (unused spec m names)
    | inr by_default ↦ by_default
  ],
  λ left spec m names. named (sym names ∙ (left spec m (inl names)).0),
)

module _ (specs : List PackageInfoTemplate) where
  IsUnused-iff :
      (repo : Repository)
      → (validate_update_or_delete (ok specs) repo ≡ ok tt) ↔ IsUnused repo.name specs
  unfolding validate_update_or_delete
  IsUnused-iff repo = elim (Bool-cases (is_empty (infos_of repo.name specs))) [
    | inl none_left ↦
        rw none_left (λ e. infos_of-nil repo.name specs ((is_empty_iff _).0 none_left), λ h. refl)
    | inr some_left ↦
        rw some_left
          (λ e. cc, λ h. cc (some_left, (is_empty_iff _).1 (nil-infos_of repo.name specs h)))
  ]

  -- What the two handlers admit, by the names.
  validate-IsUnused :
      (old new : Repository)
      → ((validate_repository_delete (ok specs) (repository_object old) ≡ ok tt)
          ↔ IsUnused old.name specs)
        × ((validate_repository_update (ok specs) (repository_object old) (repository_object new)
              ≡ ok tt)
            ↔ ((old.url ≡ new.url) ⊎ IsUnused old.name specs))
  unfolding validate_repository_delete validate_repository_update
  validate-IsUnused old new = (
    IsUnused-iff old,
    elim (Bool-cases (str_eq old.url new.url)) [
      | inl same_url ↦ rw same_url (λ e. inl ((eq_iff old.url new.url).0 same_url), λ h. refl)
      | inr other_url ↦ rw other_url (
        λ e. inr ((IsUnused-iff old).0 e),
        λ h. elim h [
          | inl same_url ↦ cc (other_url, (eq_iff old.url new.url).1 same_url)
          | inr is_unused ↦ (IsUnused-iff old).1 is_unused
        ],
      )
    ],
  )

  -- Where the PackageInfos can be listed, and the repository has a name, it may be deleted exactly if
  -- every PackageInfo that comes from it comes from it as from the default repository, without naming
  -- it, and it may be updated exactly if its address stays or this is so. The PackageInfos that name no
  -- repository are overlooked, whichever repository is the default one.
  pub validate_repository_iff :
      (default : String) (old new : Repository)
      → old.name ≢ ""
      → ((validate_repository_delete (ok specs) (repository_object old) ≡ ok tt)
          ↔ IsLeft default old.name specs)
        × ((validate_repository_update (ok specs) (repository_object old) (repository_object new)
              ≡ ok tt)
            ↔ ((old.url ≡ new.url) ⊎ IsLeft default old.name specs))
  validate_repository_iff default old new named =
      let (deletes, updates) = validate-IsUnused old new in
      let (to_left, from_left) = IsUnused-IsLeft default old.name specs named in
      (
        (λ e. to_left (deletes.0 e), λ h. deletes.1 (from_left h)),
        (
          λ e. elim (updates.0 e) [
            | inl same_url ↦ inl same_url
            | inr unused ↦ inr (to_left unused)
          ],
          λ h. updates.1 (elim h [ inl same_url ↦ inl same_url | inr left ↦ inr (from_left left) ]),
        ),
      )
