-- ===== src/Controller/Written.antt =====
-- What a reconciliation writes where the package is to be updated: the end of actualFinalize of
-- internal/controller/common.go.
use glasskube.Base.{String, ◌≡◌, refl, Bool, true, false, List, [], ok, err, Result, if◌then◌else◌}
use glasskube.Assoc.{string_key}
use glasskube.Controller.Types.{ReconciledPackage, Context}
use glasskube.Controller.Finalize.{Env, write_back, after_write}

module _ {W S : Type 0} (env : Env W S) where
  after_write-world :
      (c : Context W S) (errs : List String) (reply : W × Result String (ReconciledPackage S))
      → (after_write env c errs reply).0.world ≡ reply.0
  after_write-world c errs (w, ok p) = refl
  after_write-world c errs (w, err e) = refl

  written_world :
      (b c : Bool) (x y z : Context W S × List String) (x' y' : W)
      → c ≡ true
      → x.0.world ≡ x'
      → y.0.world ≡ y'
      → (if b then x else if c then y else z).0.world ≡ (if b then x' else y')
  written_world true c x y z x' y' is_c p q = p
  written_world false true x y z x' y' is_c p q = q
  written_world false false x y z x' y' is_c p q = cc

  -- The server after the end of a reconciliation that updates the package.
  pub write_back-world :
      (c : Context W S)
      → c.should_update_resource ≡ true
      → (write_back env (c, [])).0.world ≡ (
          if c.should_update_status
          then (env.api.update_status c.world c.pkg).0
          else (env.api.update c.world c.pkg).0)
  unfolding write_back
  write_back-world c updates =
      written_world c.should_update_status c.should_update_resource
        (after_write env c [] (env.api.update_status c.world c.pkg))
        (after_write env c [] (env.api.update c.world c.pkg)) (c, []) _ _ updates
        (after_write-world c [] (env.api.update_status c.world c.pkg))
        (after_write-world c [] (env.api.update c.world c.pkg))
