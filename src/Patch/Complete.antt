-- ===== src/Patch/Complete.antt =====
-- The generated patches are those of the targets of the given values.
use glasskube.Base.{
  String, ◌≡◌, refl, true, false, inl, inr, some, List, [], ◌∷◌, ◌++◌, ok, ◌>>=◌, bind-eq-ok, IsIn,
  here, there, IsIn-append_left, IsIn-append_right, IsIn-append, All, Option-cases, Bool-cases,
  eq_iff, arith,
}
use glasskube.Assoc.{get, keys, contains, same_refl, same, contains-keys_of_get, string_key}
use glasskube.Manifest.{ValueDefinitionTarget, ValueDefinition, PackageManifest}
use glasskube.Patch.Target.{PatchLibrary, TargetPatch, ObjectKind, generate_target_patch, matches}
use glasskube.Patch.Generate.{target_patches, value_patches, patches_from, generate_patches}
use glasskube.Patch.Apply.{apply, apply_one_to_resource, apply_to_resource}

-- What slices.Sort keeps: the elements.
abbrev pub KeepsElements : (List String → List String) → Type 0
KeepsElements sort = (ks : List String) (k : String) → contains (sort ks) k ≡ contains ks k

module _ {J T P : Type 0} (lib : PatchLibrary J T P) where
  -- `p` is the patch of one of the targets, for the value.
  pub record IsPatchOf (targets : List ValueDefinitionTarget) (value : J) (p : TargetPatch P)
      : Type 0 where
    pub target : ValueDefinitionTarget
    pub is_in : IsIn target targets
    pub generated : generate_target_patch lib target value ≡ ok p

  IsPatchOf-cons :
      {ts : List ValueDefinitionTarget} {value : J} {p : TargetPatch P} (t : ValueDefinitionTarget)
      → IsPatchOf ts value p
      → IsPatchOf (t ∷ ts) value p
  IsPatchOf-cons t h = record { target = h.target; is_in = there h.is_in; generated = h.generated }

  -- The patches of one value: each comes from a target, and each target has one.
  target_patches-IsPatchOf :
      (targets : List ValueDefinitionTarget) (value : J) (ps : List (TargetPatch P))
      → target_patches lib targets value ≡ ok ps
      → (p : TargetPatch P) → IsIn p ps
      → IsPatchOf targets value p
  unfolding target_patches
  target_patches-IsPatchOf [] value ps e p m =
      let same : [] ≡ ps = cc in elim (rw (← same) at m) [ ]
  target_patches-IsPatchOf (t ∷ ts) value ps e p m =
      let (q, made, e1) = bind-eq-ok (generate_target_patch lib t value) _ e in
      let (qs, rest, e2) = bind-eq-ok (target_patches lib ts value) _ e1 in
      let same : q ∷ qs ≡ ps = cc in
      elim (IsIn-append (q ∷ []) (rw (← same) at m)) [
        | inl (here is_q) ↦ record { target = t; is_in = here refl; generated = rw (← is_q) made }
        | inl (there m') ↦ elim m' [ ]
        | inr later ↦ IsPatchOf-cons t (target_patches-IsPatchOf ts value qs rest p later)
      ]

  target_patches-has :
      (targets : List ValueDefinitionTarget) (value : J) (ps : List (TargetPatch P))
      → target_patches lib targets value ≡ ok ps
      → (t : ValueDefinitionTarget) → IsIn t targets
      → (p : TargetPatch P) × (generate_target_patch lib t value ≡ ok p) × IsIn p ps
  unfolding target_patches
  target_patches-has [] value ps e t m = elim m [ ]
  target_patches-has (x ∷ xs) value ps e t m =
      let (q, made, e1) = bind-eq-ok (generate_target_patch lib x value) _ e in
      let (qs, rest, e2) = bind-eq-ok (target_patches lib xs value) _ e1 in
      let same : q ∷ qs ≡ ps = cc in
      elim m [
        | here is_x ↦ (q, rw (← is_x) made, rw (← same) (here refl))
        | there later ↦
            let (p, of_t, in_qs) = target_patches-has xs value qs rest t later in
            (p, of_t, rw (← same) (there in_qs))
      ]

  module _ (definitions : List (String × ValueDefinition)) (values : List (String × String)) where
    -- `p` is the patch of a target of a definition that has a value.
    pub record IsPatchOfValue (names : List String) (p : TargetPatch P) : Type 0 where
      pub name : String
      pub def : ValueDefinition
      pub value : String
      pub visited : contains names name ≡ true
      pub at_definition : get definitions name ≡ some def
      pub at_value : get values name ≡ some value
      pub of_target : IsPatchOf def.targets (lib.of_string value) p

    value_patches-IsPatchOfValue :
        (name : String) (ps : List (TargetPatch P))
        → value_patches lib (get definitions name) (get values name) ≡ ok ps
        → (p : TargetPatch P) → IsIn p ps
        → IsPatchOfValue (name ∷ []) p
    unfolding value_patches contains
    value_patches-IsPatchOfValue name ps e p m = elim (Option-cases (get definitions name)) [
      | inl absent ↦ let same : [] ≡ ps = ground (arith, absent) in elim (rw (← same) at m) [ ]
      | inr (def, at_definition) ↦ elim (Option-cases (get values name)) [
        | inl absent ↦
            let same : [] ≡ ps = ground (arith, absent, at_definition) in
            elim (rw (← same) at m) [ ]
        | inr (value, at_value) ↦ record {
          name = name;
          def = def;
          value = value;
          visited = ground (arith, same_refl name);
          at_definition = at_definition;
          at_value = at_value;
          of_target =
              target_patches-IsPatchOf def.targets (lib.of_string value) ps
                (rw (at_value, value_patches) at (rw (at_definition, value_patches) at e)) p m;
        }
      ]
    ]

    IsPatchOfValue-mono :
        {names more : List String} {p : TargetPatch P}
        → ((k : String) → contains names k ≡ true → contains more k ≡ true)
        → IsPatchOfValue names p
        → IsPatchOfValue more p
    IsPatchOfValue-mono wider h = record {
      name = h.name;
      def = h.def;
      value = h.value;
      visited = wider h.name h.visited;
      at_definition = h.at_definition;
      at_value = h.at_value;
      of_target = h.of_target;
    }

    patches_from-IsPatchOfValue :
        (names : List String) (ps : List (TargetPatch P))
        → patches_from lib definitions values names ≡ ok ps
        → (p : TargetPatch P) → IsIn p ps
        → IsPatchOfValue names p
    unfolding patches_from contains
    patches_from-IsPatchOfValue [] ps e p m = let same : [] ≡ ps = cc in elim (rw (← same) at m) [ ]
    patches_from-IsPatchOfValue (name ∷ names) ps e p m =
        let here_patches = value_patches lib (get definitions name) (get values name) in
        let (first, made, e1) = bind-eq-ok here_patches _ e in
        let (rest, later, e2) = bind-eq-ok (patches_from lib definitions values names) _ e1 in
        let same : first ++ rest ≡ ps = cc in
        elim (IsIn-append first (rw (← same) at m)) [
          | inl l ↦
              IsPatchOfValue-mono (λ k visited. ground arith)
                (value_patches-IsPatchOfValue name first made p l)
          | inr r ↦
              IsPatchOfValue-mono (λ k visited. ground arith)
                (patches_from-IsPatchOfValue names rest later p r)
        ]

    patches_from-has :
        (names : List String) (ps : List (TargetPatch P))
        → patches_from lib definitions values names ≡ ok ps
        → (name : String) (def : ValueDefinition) (value : String) (t : ValueDefinitionTarget)
        → contains names name ≡ true
        → get definitions name ≡ some def
        → get values name ≡ some value
        → IsIn t def.targets
        → (p : TargetPatch P) × (generate_target_patch lib t (lib.of_string value) ≡ ok p)
          × IsIn p ps
    unfolding patches_from contains value_patches
    patches_from-has [] ps e name def value t visited at_definition at_value m = cc
    patches_from-has (x ∷ xs) ps e name def value t visited at_definition at_value m =
        let here_patches = value_patches lib (get definitions x) (get values x) in
        let (first, made, e1) = bind-eq-ok here_patches _ e in
        let (rest, later, e2) = bind-eq-ok (patches_from lib definitions values xs) _ e1 in
        let joined : first ++ rest ≡ ps = cc in
        elim (Bool-cases (same x name)) [
          | inl is_x ↦
              let x_is : x ≡ name = (eq_iff x name).0 is_x in
              let made' = rw at_value at (rw at_definition at (rw x_is at made)) in
              let (p, of_t, in_first) =
                target_patches-has def.targets (lib.of_string value) first made' t m in
              (p, of_t, rw (← joined) (IsIn-append_left rest in_first))
          | inr other ↦
              let (p, of_t, in_rest) =
                patches_from-has xs rest later name def value t (ground arith) at_definition
                  at_value m in
              (p, of_t, rw (← joined) (IsIn-append_right first in_rest))
        ]

  -- Where GeneratePatches returns patches, with a sort that keeps the elements, each patch is that of
  -- a target of a value definition that has a value, and each such target has its patch.
  pub generate_patches_exact :
      (sort : List String → List String)
      → KeepsElements sort
      → (manifest : PackageManifest) (values : List (String × String)) (ps : List (TargetPatch P))
      → generate_patches lib sort manifest values ≡ ok ps
      → ((p : TargetPatch P)
          → IsIn p ps
          → IsPatchOfValue manifest.value_definitions values (keys manifest.value_definitions) p)
        × ((name : String) (def : ValueDefinition) (value : String) (t : ValueDefinitionTarget)
            → get manifest.value_definitions name ≡ some def
            → get values name ≡ some value
            → IsIn t def.targets
            → (p : TargetPatch P) × (generate_target_patch lib t (lib.of_string value) ≡ ok p)
              × IsIn p ps)
  unfolding generate_patches
  generate_patches_exact sort keeps manifest values ps e = (
    λ p m.
        IsPatchOfValue-mono manifest.value_definitions values
          (λ k visited. rw (keeps (keys manifest.value_definitions) k) at visited)
          (patches_from-IsPatchOfValue manifest.value_definitions values _ ps e p m),
    λ name def value t at_definition at_value m.
        patches_from-has manifest.value_definitions values _ ps e name def value t
          (rw (keeps (keys manifest.value_definitions) name)
            (contains-keys_of_get manifest.value_definitions name at_definition))
          at_definition at_value m,
  )

module _ {J T P O : Type 0} (lib : PatchLibrary J T P) (objects : ObjectKind O) where
  -- Patches that do not match an object leave it as it is. Before a patch that matches they are passed
  -- over, and what follows that patch applies to its result.
  pub apply_to_resource_selects :
      (ps : List (TargetPatch P)) (p : TargetPatch P) (qs : List (TargetPatch P)) (obj : O)
      → All (λ (q : TargetPatch P). matches objects q.resource obj ≡ false) ps
      → matches objects p.resource obj ≡ true
      → (apply_to_resource lib objects ps obj ≡ ok obj)
        × (apply_to_resource lib objects (ps ++ p ∷ qs) obj
            ≡ (apply lib objects p.patch obj >>= λ obj'. apply_to_resource lib objects qs obj'))
  unfolding apply_to_resource apply_one_to_resource
  apply_to_resource_selects [] p qs obj unmatched match = (refl, rw match refl)
  apply_to_resource_selects (q ∷ ps) p qs obj (away, unmatched) match =
      rw away (apply_to_resource_selects ps p qs obj unmatched match)
