-- ===== src/Agent/Skills/Registered.antt =====
-- A registered skill stays as it was registered.
use blender_shot_preview.Prelude.{
  String, Bool, true, false, Option, none, some, List, ◌≡◌, refl, sym, ap, ◌∙◌, ok, err,
  ok-injective, ◌==◌, ==_self, if◌then◌else◌, lookup, insert, lookup-insert,
}
use blender_shot_preview.Agent.Types.{invalid, skill_not_found}
use blender_shot_preview.Agent.ToolGuard.{ToolKind}
use blender_shot_preview.Agent.Skills.{
  Built, RegisteredSkill, exists, is_there, is_known, register_with_kind, kind_of, kind_or, resolve,
  resolved,
}

module _ {Tool : Type 0} where
  -- What a registration that was accepted says of the kind, the identifier and the registry.
  accepted :
      (skill_id : String) (kind : ToolKind) (build : Built Tool)
      (builders after : List (String × RegisteredSkill Tool))
      → register_with_kind skill_id kind (some build) builders ≡ ok after
      → (is_known kind ≡ true)
        × (exists skill_id builders ≡ false)
        × (after ≡ insert skill_id (record { kind = kind; build = build }) builders)
  unfolding register_with_kind
  accepted skill_id kind build builders after =
      go (skill_id == "") (is_known kind) (exists skill_id builders)
    where
      go :
          (a b c : Bool)
          → (if a
              then err invalid
              else if b
              then (if c
                  then err invalid
                  else ok (insert skill_id (record { kind = kind; build = build }) builders))
              else err invalid)
            ≡ ok after
          → (b ≡ true)
            × (c ≡ false)
            × (after ≡ insert skill_id (record { kind = kind; build = build }) builders)
      go true b c e = cc
      go false false c e = cc
      go false true true e = cc
      go false true false e = (refl, refl, sym (ok-injective e))

  -- After RegisterWithKind accepted a skill, which was not registered before, Kind answers its kind,
  -- which is one of the three kinds, every other skill is as before, and every further registration
  -- under the same identifier is refused with ErrInvalidDefinition.
  pub register_with_kind-kind_of :
      (skill_id : String) (kind : ToolKind) (build : Built Tool)
      (builders after : List (String × RegisteredSkill Tool))
      → register_with_kind skill_id kind (some build) builders ≡ ok after
      → (kind_of skill_id builders ≡ err (skill_not_found skill_id))
        × (is_known kind ≡ true)
        × (kind_of skill_id after ≡ ok kind)
        × ((other_id : String)
            → (skill_id == other_id) ≡ false
            → resolve other_id after ≡ resolve other_id builders)
        × ((again : ToolKind) (rebuild : Option (Built Tool))
            → register_with_kind skill_id again rebuild after ≡ err invalid)
  unfolding kind_of resolve exists register_with_kind
  register_with_kind-kind_of skill_id kind build builders after e =
      let (known, free, written) = accepted skill_id kind build builders after e in
      let skill : RegisteredSkill Tool = record { kind = kind; build = build } in
      let found : lookup skill_id after ≡ some skill =
        ap (lookup skill_id) written
        ∙ lookup-insert skill_id skill_id skill builders
        ∙ ap (λ b. if b then some skill else lookup skill_id builders) (==_self skill_id) in
      (
        absent (lookup skill_id builders) free,
        known,
        ap (kind_or skill_id) found,
        λ other_id elsewhere. ap (resolved other_id) (
            ap (lookup other_id) written
            ∙ lookup-insert skill_id other_id skill builders
            ∙ ap (λ b. if b then some skill else lookup other_id builders) elsewhere),
        λ again rebuild. refused again rebuild (ap is_there found),
      )
    where
      absent :
          (o : Option (RegisteredSkill Tool))
          → is_there o ≡ false
          → kind_or skill_id o ≡ err (skill_not_found skill_id)
      absent none h = refl
      absent (some old) h = cc

      refused :
          (again : ToolKind) (rebuild : Option (Built Tool))
          → exists skill_id after ≡ true
          → register_with_kind skill_id again rebuild after ≡ err invalid
      refused again none there = refl
      refused again (some other_build) there = go (skill_id == "") (is_known again)
        where
          go :
              (a b : Bool)
              → (if a
                  then err invalid
                  else if b
                  then (if exists skill_id after
                      then err invalid
                      else ok
                          (insert skill_id (record { kind = again; build = other_build }) after))
                  else err invalid)
                ≡ err invalid
          go true b = refl
          go false false = refl
          go false true =
              ap
                (λ c.
                  if c
                  then err invalid
                  else ok (insert skill_id (record { kind = again; build = other_build }) after))
                there
