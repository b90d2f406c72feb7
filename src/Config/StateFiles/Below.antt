-- ===== src/Config/StateFiles/Below.antt =====
-- internal/config/config.go: where the files lie that `validateStateMappings` accepts.
use alib_fetcher.Base.{
  ◌≡◌, refl, ◌∙◌, subst, List, [], ◌∷◌, ◌++◌, Text, Option, some, true, false, any, All, done,
  arith,
}
use alib_fetcher.Config.Paths.{is_abs, rooted_path, resolve_state_dir}
use alib_fetcher.Config.Paths.Within.{
  IsPlain, has_slash, join_path-rooted, resolve_state_dir-rooted,
}
use alib_fetcher.Config.StateFiles.{
  System, RawChat, Mapping, validate_state_file, validate_state_mappings, is_unsafe,
}
use alib_fetcher.Config.StateFiles.Apart.{EachMaps}
use alib_fetcher.Config.StateFiles.Mapped.{validate_state_mappings_iff}

no_slash : (t : Text) → any is_unsafe t ≡ false → has_slash t ≡ false
unfolding any
no_slash [] h = refl
no_slash (c ∷ cs) h = ground (arith, h, no_slash cs)

-- A name that is accepted for a state file is no path.
safe-IsPlain : (t : Text) → validate_state_file t ≡ done tt → IsPlain t
unfolding validate_state_file
safe-IsPlain t h = ground (arith, h, no_slash t)

module _ (system : System) where
  EachMaps-Within :
      (parts : List Text) (raws : List RawChat) (ms : List Mapping)
      → All IsPlain parts
      → EachMaps system (rooted_path parts) raws ms
      → All (λ m. m.state_path ≡ rooted_path (parts ++ m.state_file ∷ [])) ms
  EachMaps-Within parts [] [] plain each = tt
  EachMaps-Within parts [] (m ∷ ms) plain each = absurd each
  EachMaps-Within parts (raw ∷ raws) [] plain each = tt
  EachMaps-Within parts (raw ∷ raws) (m ∷ ms) plain each = (
    each.0.placed
        ∙ join_path-rooted parts m.state_file plain (safe-IsPlain m.state_file each.0.safe),
    EachMaps-Within parts raws ms plain each.1,
  )

  -- The state directory is a clean absolute path if the path of the configuration is absolute, and
  -- every state file that is accepted lies directly in it: no name of a file leads elsewhere.
  pub validate_state_mappings-Within :
      (cwd value : Option Text) (config_path state_dir : Text) (raws : List RawChat)
      (ms : List Mapping)
      → is_abs config_path ≡ true
      → resolve_state_dir cwd value config_path ≡ some state_dir
      → validate_state_mappings system raws state_dir ≡ done ms
      → (parts : List Text) × All IsPlain parts
        × (state_dir ≡ rooted_path parts)
        × All (λ m. m.state_path ≡ rooted_path (parts ++ m.state_file ∷ [])) ms
  validate_state_mappings-Within cwd value config_path state_dir raws ms h resolved ok =
      let (parts, plain, found) = resolve_state_dir-rooted cwd value config_path h in
      let same : state_dir ≡ rooted_path parts = cc (resolved, found) in
      (
        parts,
        plain,
        same,
        EachMaps-Within parts raws ms plain (
            subst (λ dir. EachMaps system dir raws ms) same
              ((validate_state_mappings_iff system raws state_dir ms).0 ok).1),
      )
