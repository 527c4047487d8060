-- ===== src/Webhook/RepositorySamples.antt =====
-- Repositories with and without an installed package.
use glasskube.Base.{◌≡◌, refl, ◌↔◌, ◌⊎◌, [], ◌∷◌, ok, err}
use glasskube.Controller.Types.{PackageInfoTemplate}
use glasskube.Webhook.Repositories.{
  Repository, repository_object, other_object, packages_installed, invalid_object, IsLeft,
  validate_repository_delete, validate_repository_update, validate_repository_iff,
}

abbrev used : Repository
used = record { name = "main"; url = "https://example.com/main" }

abbrev moved : Repository
moved = record { name = "main"; url = "https://example.com/moved" }

abbrev shop_info : PackageInfoTemplate
shop_info = record { name = "shop"; version = "1"; repository_name = "main" }

rejected_deletion :
    validate_repository_delete (ok (shop_info ∷ [])) (repository_object used)
    ≡ err (packages_installed (shop_info ∷ []))
unfolding validate_repository_delete
rejected_deletion = refl

rejected_update :
    (validate_repository_update
        (ok (shop_info ∷ []))
        (repository_object used)
        (repository_object moved)
      ≡ err (packages_installed (shop_info ∷ [])))
    × (validate_repository_update (ok (shop_info ∷ [])) (repository_object used) other_object
        ≡ err invalid_object)
unfolding validate_repository_update
rejected_update = (refl, refl)

abbrev unnamed_info : PackageInfoTemplate
unnamed_info = record shop_info { repository_name = "" }

-- The default repository, from which `shop` is installed without naming it, may be deleted.
overlooked : validate_repository_delete (ok (unnamed_info ∷ [])) (repository_object used) ≡ ok tt
unfolding validate_repository_delete
overlooked = refl

validate_repository_iff_example :
    ((validate_repository_delete (ok (unnamed_info ∷ [])) (repository_object used) ≡ ok tt)
      ↔ IsLeft "main" "main" (unnamed_info ∷ []))
    × ((validate_repository_update
            (ok (unnamed_info ∷ []))
            (repository_object used)
            (repository_object moved)
          ≡ ok tt)
        ↔ ((used.url ≡ moved.url) ⊎ IsLeft "main" "main" (unnamed_info ∷ [])))
validate_repository_iff_example =
    validate_repository_iff (unnamed_info ∷ []) "main" used moved (λ e. cc e)
