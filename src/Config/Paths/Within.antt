-- ===== src/Config/Paths/Within.antt =====
-- A clean absolute path is the way from the root through plain directories, and a plain name joined
-- to it is one step more.
use mathlib.Core.List.{reverse, reverse-append, append_assoc, append-nil}
use mathlib.Core.Option
use alib_fetcher.Base.{
  ◌≡◌, refl, sym, ap, subst, ◌∙◌, inl, inr, List, [], ◌∷◌, ◌++◌, Text, text, Option, some, Bool,
  true, false, not, ◌&&◌, ◌==◌, text_eq, is_empty, has_prefix, any, All, All-append, All-reverse,
  All-weaken, join, split, Bool-cases, Option-cases, arith, cut_last, ==_iff,
}
use alib_fetcher.Base.Strings.Splits.{split-IsWhole, split-append, split-whole, split-join}
use alib_fetcher.Config.Paths.{
  is_abs, push_part, clean_parts, rooted_path, clean, join_path, dir_of, abs, value_or,
  default_state_path, resolve_state_dir,
}

abbrev pub has_slash : Text → Bool
has_slash t = any (λ c. c == 47) t

-- The name of a directory or a file, and no step to another place.
abbrev pub is_plain : Text → Bool
is_plain t =
    not (is_empty t)
    && not (text_eq t (text "."))
    && not (text_eq t (text ".."))
    && not (has_slash t)

abbrev pub IsPlain : Text → Type 0
IsPlain t = is_plain t ≡ true

abbrev HasNoSlash : Text → Type 0
HasNoSlash t = has_slash t ≡ false

plain-HasNoSlash : (t : Text) → IsPlain t → HasNoSlash t
plain-HasNoSlash t h = ground (arith, h)

push_part-plain :
    (rooted : Bool) (stack : List Text) (t : Text)
    → IsPlain t
    → push_part rooted stack t ≡ t ∷ stack
unfolding push_part
push_part-plain rooted stack t h = ground (arith, h)

push_part-IsPlain :
    (stack : List Text) (t : Text)
    → HasNoSlash t
    → All IsPlain stack
    → All IsPlain (push_part true stack t)
unfolding push_part
push_part-IsPlain [] t h hs = ground (arith, h)
push_part-IsPlain (q ∷ qs) t h hs = ground (arith, h, hs)

clean_parts-IsPlain :
    (stack parts : List Text)
    → All IsPlain stack
    → All HasNoSlash parts
    → All IsPlain (clean_parts true stack parts)
unfolding clean_parts
clean_parts-IsPlain stack [] hs hp = All-reverse IsPlain stack hs
clean_parts-IsPlain stack (t ∷ ts) hs hp =
    clean_parts-IsPlain (push_part true stack t) ts (push_part-IsPlain stack t hp.0 hs) hp.1

-- Plain parts are kept as they are.
clean_parts-plain :
    (rooted : Bool) (stack parts : List Text)
    → All IsPlain parts
    → clean_parts rooted stack parts ≡ reverse stack ++ parts
unfolding clean_parts
clean_parts-plain rooted stack [] ps = sym (append-nil (reverse stack))
clean_parts-plain rooted stack (t ∷ ts) ps =
    ap (λ kept. clean_parts rooted kept ts) (push_part-plain rooted stack t ps.0)
    ∙ clean_parts-plain rooted (t ∷ stack) ts ps.1
    ∙ ap (λ front. front ++ ts) (reverse-append (t ∷ []) stack)
    ∙ append_assoc (reverse stack) (t ∷ []) ts

-- The parts of a path from the root, with the empty part before its first slash.
clean_parts-rooted_path :
    (parts more : List Text)
    → All IsPlain parts
    → clean_parts true [] (split 47 (rooted_path parts) ++ more)
      ≡ clean_parts true [] (parts ++ more)
unfolding rooted_path split clean_parts push_part join
clean_parts-rooted_path [] more ps = refl
clean_parts-rooted_path (t ∷ ts) more ps =
    rw (split-join 47 t ts (All-weaken IsPlain HasNoSlash (t ∷ ts) plain-HasNoSlash ps)) refl

rooted_path-is_abs : (parts : List Text) (rest : Text) → is_abs (rooted_path parts ++ rest) ≡ true
unfolding is_abs rooted_path has_prefix
rooted_path-is_abs parts rest = refl

clean-of_abs :
    (path : Text)
    → is_abs path ≡ true
    → clean path ≡ rooted_path (clean_parts true [] (split 47 path))
unfolding clean
clean-of_abs path h = rw h refl

join_path-rooted_path :
    (parts : List Text) (file : Text)
    → join_path (rooted_path parts) file ≡ clean (rooted_path parts ++ 47 ∷ file)
unfolding join_path rooted_path
join_path-rooted_path parts file = refl

-- A plain name in a directory is one step below it.
pub join_path-rooted :
    (parts : List Text) (file : Text)
    → All IsPlain parts
    → IsPlain file
    → join_path (rooted_path parts) file ≡ rooted_path (parts ++ file ∷ [])
join_path-rooted parts file ps plain =
    join_path-rooted_path parts file
    ∙ clean-of_abs (rooted_path parts ++ 47 ∷ file) (rooted_path-is_abs parts (47 ∷ file))
    ∙ ap (λ names. rooted_path (clean_parts true [] names))
        (split-append 47 (rooted_path parts) file
          ∙ ap (λ last. split 47 (rooted_path parts) ++ last)
              (split-whole 47 file (plain-HasNoSlash file plain)))
    ∙ ap rooted_path (
        clean_parts-rooted_path parts (file ∷ []) ps
        ∙ clean_parts-plain true [] (parts ++ file ∷ [])
            (All-append IsPlain parts (file ∷ []) ps (plain, tt)))

-- A clean absolute path leads from the root through plain directories.
pub clean-rooted :
    (path : Text)
    → is_abs path ≡ true
    → (parts : List Text) × All IsPlain parts × (clean path ≡ rooted_path parts)
clean-rooted path h = (
  clean_parts true [] (split 47 path),
  clean_parts-IsPlain [] (split 47 path) tt (split-IsWhole 47 path),
  clean-of_abs path h,
)

abbrev IsRooted : Text → Type 0
IsRooted path = (parts : List Text) × All IsPlain parts × (path ≡ rooted_path parts)

IsRooted-is_abs : (path : Text) → IsRooted path → is_abs path ≡ true
unfolding is_abs rooted_path has_prefix
IsRooted-is_abs path (parts, plain, e) = rw e refl

-- Before the last slash of an absolute path stands an absolute path.
cut_last-slash :
    (cs : Text)
    → (before : Text) × (after : Text) × (cut_last (47 ∷ cs) (text "/") ≡ some (before, after))
      × (is_abs (before ++ 47 ∷ []) ≡ true)
unfolding cut_last is_abs has_prefix
cut_last-slash cs = elim (Option-cases (cut_last cs (text "/"))) [
  | inl none_left ↦ ([], cs, rw none_left refl, refl)
  | inr ((before, after), found) ↦ (47 ∷ before, after, rw found refl, refl)
]

dir_of-found :
    (path before after : Text)
    → cut_last path (text "/") ≡ some (before, after)
    → dir_of path ≡ clean (before ++ 47 ∷ [])
unfolding dir_of
dir_of-found path before after found = rw (found, dir_of) refl

dir_of-IsRooted : (path : Text) → is_abs path ≡ true → IsRooted (dir_of path)
unfolding is_abs has_prefix
dir_of-IsRooted [] h = cc h
dir_of-IsRooted (c ∷ cs) h = elim (Bool-cases (c == 47)) [
  | inr other ↦ cc (rw other at h)
  | inl slash ↦
      let (before, after, found, absolute) = cut_last-slash cs in
      subst (λ first. IsRooted (dir_of (first ∷ cs))) (sym ((==_iff c 47).0 slash))
        (subst IsRooted (sym (dir_of-found (47 ∷ cs) before after found))
          (clean-rooted (before ++ 47 ∷ []) absolute))
]

join_path-IsRooted : (dir file : Text) → IsRooted dir → IsRooted (join_path dir file)
join_path-IsRooted dir file (parts, plain, e) =
    subst (λ path. IsRooted (join_path path file)) (sym e)
      (subst IsRooted (sym (join_path-rooted_path parts file))
        (clean-rooted (rooted_path parts ++ 47 ∷ file) (rooted_path-is_abs parts (47 ∷ file))))

abs-of_abs :
    (cwd : Option Text) (path : Text) → is_abs path ≡ true → abs cwd path ≡ some (clean path)
unfolding abs
abs-of_abs cwd path h = rw h refl

abs-clean :
    (cwd : Option Text) (path : Text)
    → is_abs path ≡ true
    → (parts : List Text) × All IsPlain parts
      × (Option.map clean (abs cwd path) ≡ some (rooted_path parts))
abs-clean cwd path h =
    let (cleaned, plain, again) =
      clean-rooted (clean path) (IsRooted-is_abs (clean path) (clean-rooted path h)) in
    (cleaned, plain, ap (Option.map clean) (abs-of_abs cwd path h) ∙ ap some again)

-- The state directory is clean and absolute, whatever the working directory is.
pub resolve_state_dir-rooted :
    (cwd value : Option Text) (config_path : Text)
    → is_abs config_path ≡ true
    → (parts : List Text) × All IsPlain parts
      × (resolve_state_dir cwd value config_path ≡ some (rooted_path parts))
unfolding resolve_state_dir
resolve_state_dir-rooted cwd value config_path h =
    let state_dir : Text = value_or value default_state_path in
    elim (Bool-cases (is_abs state_dir)) [
      | inl absolute ↦ rw absolute (abs-clean cwd state_dir absolute)
      | inr relative ↦
          let dir = dir_of-IsRooted config_path h in
          rw relative (
            abs-clean cwd (join_path (dir_of config_path) state_dir)
              (IsRooted-is_abs _ (join_path-IsRooted (dir_of config_path) state_dir dir)))
    ]
