-- ===== src/Sandbox/Capabilities.antt =====
-- sandbox/capabilities.go: the capability sets of the sandboxed process. The capability library is a
-- parameter: the capabilities that it knows, and their names.
pub mod Laws
use Prim.Native.String
use microbox.Base.{
  ℕ, Char, code, String, Bool, true, false, ◌&&◌, ◌||◌, Option, none, some, List, [], ◌∷◌, ◌++◌,
  ltb, leb, ◌=ᵇ◌, ◌==◌, if◌then◌else◌,
}
use microbox.Base.Text.{is_empty}
use microbox.Base.Keys.{nat_eq, insert_all, delete_all}
use microbox.Base.Space.{trim_space, trim_prefix}
use microbox.Os.{
  Error, errorf, wrapf, CapType, bounding, permitted, effective, inheritable, CapGroup, caps,
  bounds, ambient, caps_open, caps_clear, caps_set, caps_apply, Result, ok, err, Kernel, Io, lift,
  ◌>>=◌, ◌>>◌, wrapping, perform, tell,
}

pub record CapLibrary : Type 0 where
  -- `capability.ListKnown` and `Cap.String`
  pub list_known : List ℕ
  pub name : ℕ → String

abbrev pub default_caps : List String
default_caps =
    "CAP_CHOWN" ∷ "CAP_DAC_OVERRIDE" ∷ "CAP_FSETID" ∷ "CAP_FOWNER" ∷ "CAP_MKNOD" ∷ "CAP_NET_RAW"
    ∷ "CAP_SETGID" ∷ "CAP_SETUID" ∷ "CAP_SETFCAP" ∷ "CAP_SETPCAP" ∷ "CAP_NET_BIND_SERVICE"
    ∷ "CAP_SYS_CHROOT" ∷ "CAP_KILL" ∷ "CAP_AUDIT_READ" ∷ "CAP_AUDIT_WRITE" ∷ []

abbrev pub CapSet : Type 0
CapSet = List ℕ

pub record CapabilityOpts : Type 0 where
  pub add : CapSet
  pub drop : CapSet

-- `NewCapSet`, with `CapSet.Add` into an empty set
unfoldable pub new_cap_set : List ℕ → CapSet
new_cap_set ids = insert_all ids []

-- `CapSet.Add` and `CapSet.Remove`
unfoldable pub cap_set_add : List ℕ → CapSet → CapSet
cap_set_add = insert_all

unfoldable pub cap_set_remove : List ℕ → CapSet → CapSet
cap_set_remove = delete_all

-- The drops, then the adds. (Removing or adding the items of an empty set changes nothing, so the
-- tests of `len` are left out.)
unfoldable pub final_caps : CapabilityOpts → List ℕ → CapSet
final_caps o ids = cap_set_add o.add (cap_set_remove o.drop (new_cap_set ids))

-- The map from capability types to lists that `BuildCapSets` returns.
pub record CapsByType : Type 0 where
  pub bounding_set : List ℕ
  pub permitted_set : List ℕ
  pub effective_set : List ℕ
  pub inheritable_set : List ℕ

abbrev pub all_types : List ℕ → CapsByType
all_types final = record {
  bounding_set = final;
  permitted_set = final;
  effective_set = final;
  inheritable_set = final;
}

-- `unicode.ToLower`, on the letters of ASCII.
letter_in : String → String → Char → Char
letter_in (String.◌∷◌ u us) (String.◌∷◌ l ls) c =
    let rest = letter_in us ls c in if code c =ᵇ code u then l else rest
letter_in _ _ c = c

unfoldable pub lower_char : Char → Char
unfolding letter_in
lower_char = letter_in "ABCDEFGHIJKLMNOPQRSTUVWXYZ" "abcdefghijklmnopqrstuvwxyz"

-- `strings.ToLower` on ASCII letters; what Go makes of other letters is left out.
unfoldable pub to_lower : String → String
unfolding lower_char
to_lower String.[] = String.[]
to_lower (String.◌∷◌ c s) = String.◌∷◌ (lower_char c) (to_lower s)

-- `NormalizeCap`
unfoldable pub normalize_cap : String → String
unfolding to_lower trim_space trim_prefix
normalize_cap cap = trim_prefix "cap_" (trim_space (to_lower cap))

-- `CapabilityOpts.Apply`, from the sets that `BuildCapSets` returned.
unfoldable pub install_caps : Kernel → CapsByType → Io (Unit {0})
install_caps K by_type = do
  wrapping "error getting process capabilities" [] (perform K (caps_open 0))
  tell (caps_clear (bounds ∷ []))
  tell (caps_set bounding by_type.bounding_set)
  tell (caps_clear (caps ∷ []))
  tell (caps_set permitted by_type.permitted_set)
  tell (caps_set effective by_type.effective_set)
  tell (caps_set inheritable by_type.inheritable_set)
  tell (caps_clear (ambient ∷ []))
  wrapping "set capabilities" [] (perform K (caps_apply (caps ∷ bounds ∷ ambient ∷ [])))

module _ (L : CapLibrary) where
  -- The look-up in `capNameToID`: of two known capabilities with one name the later is kept.
  unfoldable pub cap_name_to_id : List ℕ → String → Option ℕ
  cap_name_to_id [] name = none
  cap_name_to_id (c ∷ known) name = elim (cap_name_to_id known name) [
    | some id ↦ some id
    | none ↦ if L.name c == name then some c else none
  ]

  found_cap : String → Option ℕ → Result ℕ
  found_cap cap (some id) = ok id
  found_cap cap none = err (errorf "unknown capability: %q" (cap ∷ []))

  -- `FromCapability`: the message shows the normalized name.
  unfoldable pub from_capability : String → Result ℕ
  unfolding found_cap
  from_capability cap =
      found_cap (normalize_cap cap) (cap_name_to_id L.list_known (normalize_cap cap))

  -- The loop of `FromCapabilities`, from the identifiers found so far.
  and_then_more : (List ℕ → Result (List ℕ)) → List ℕ → Result ℕ → Result (List ℕ)
  and_then_more rest out (ok id) = rest (out ++ (id ∷ []))
  and_then_more rest out (err e) = err e

  unfoldable pub from_capabilities_loop : List String → List ℕ → Result (List ℕ)
  unfolding and_then_more
  from_capabilities_loop [] out = ok out
  from_capabilities_loop (cap ∷ names) out =
      and_then_more (from_capabilities_loop names) out (from_capability cap)

  -- `FromCapabilities`
  unfoldable pub from_capabilities : List String → Result (List ℕ)
  from_capabilities names = from_capabilities_loop names []

  built : CapabilityOpts → Result (List ℕ) → Result CapsByType
  built o (ok ids) = ok (all_types (final_caps o ids))
  built o (err e) = err e

  -- `BuildCapSets`
  unfoldable pub build_cap_sets : CapabilityOpts → Result CapsByType
  unfolding built
  build_cap_sets o = built o (from_capabilities default_caps)

  -- `CapabilityOpts.Apply`
  unfoldable pub apply_caps : Kernel → CapabilityOpts → Io (Unit {0})
  apply_caps K o = do by_type ← lift (build_cap_sets o); install_caps K by_type
