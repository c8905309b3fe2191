-- ===== src/Downstream/Named.antt =====
-- ci/bump_downstream.py: whether an entry of a dependency begins at a place, as one test.
use traust_contracts.Base.{
  ℕ, ◌==◌, ◌≡◌, refl, sym, ◌∙◌, Text, after, Bool, true, false, not, ◌&&◌, Option, none, some, [],
  ◌∷◌, ◌++◌, arith, Bool-cases, inl, inr, if◌then◌else◌,
}
use traust_contracts.Py.{is_space}
use traust_contracts.Downstream.Pins.{
  Split, Entry, one, spaces, then_spaces, equals, find_key, in_front, after_brace, after_equals,
  after_name, pin_at,
}
use traust_contracts.Downstream.Keys.{is_some}

-- A name of a package: no white space and no `=`.
unfoldable pub is_name : Text → Bool
is_name [] = true
is_name (c ∷ s) = not (is_space c) && not (c == b'=') && is_name s

-- Whether `\s*\{`, `\s*=\s*\{` and the name in front of it match, with a key behind.
unfoldable pub opens_brace : Text → Bool
opens_brace [] = false
opens_brace (c ∷ s) = if is_space c then opens_brace s else c == b'{' && is_some (find_key s)

unfoldable pub opens_entry : Text → Bool
opens_entry [] = false
opens_entry (c ∷ s) = if is_space c then opens_entry s else c == b'=' && opens_brace s

unfoldable pub named_at : Text → Text → Bool
named_at [] s = opens_entry s
named_at (d ∷ dep) [] = false
named_at (d ∷ dep) (c ∷ s) = d == c && named_at dep s

in_front-is_some :
    (front : Text) (found : Option Entry) → is_some (in_front front found) ≡ is_some found
unfolding in_front
in_front-is_some front none = refl
in_front-is_some front (some (more, key)) = refl

spaces-opens_brace :
    (front s : Text) → is_some (after_brace front (one b'{' (spaces s).1)) ≡ opens_brace s
unfolding spaces opens_brace one after_brace
spaces-opens_brace front [] = refl
spaces-opens_brace front (c ∷ s) =
    ground (arith, spaces-opens_brace front s, in_front-is_some (front ++ b'{' ∷ []) (find_key s))

brace_front :
    (front front' : Text) (found : Option Split)
    → is_some (after_brace front found) ≡ is_some (after_brace front' found)
unfolding after_brace
brace_front front front' none = refl
brace_front front front' (some (brace, inner)) =
    in_front-is_some (front ++ brace) (find_key inner)
    ∙ sym (in_front-is_some (front' ++ brace) (find_key inner))

-- A space more in front changes nothing.
after_equals_longer :
    (dep front : Text) (c : ℕ) (found : Option Split)
    → is_some (after_equals dep (then_spaces (c ∷ front) found))
      ≡ is_some (after_equals dep (then_spaces front found))
unfolding after_equals then_spaces
after_equals_longer dep front c none = refl
after_equals_longer dep front c (some (sign, s)) =
    brace_front (dep ++ (c ∷ front ++ sign ++ (spaces s).0))
      (dep ++ (front ++ sign ++ (spaces s).0)) (one b'{' (spaces s).1)

equals_spaced :
    (dep s : Text) (c : ℕ)
    → is_space c ≡ true
    → is_some (after_equals dep (equals (c ∷ s))) ≡ is_some (after_equals dep (equals s))
unfolding equals spaces
equals_spaced dep s c h = rw h (after_equals_longer dep (spaces s).0 c (one b'=' (spaces s).1))

signed_brace :
    (dep s : Text) (c : ℕ)
    → is_some (after_equals dep (then_spaces [] (if c == b'=' then some (b'=' ∷ [], s) else none)))
      ≡ (c == b'=' && opens_brace s)
unfolding after_equals then_spaces
signed_brace dep s c = elim (Bool-cases (c == b'=')) [
  | inl e ↦ rw e (spaces-opens_brace (dep ++ (b'=' ∷ [] ++ (spaces s).0)) s)
  | inr e ↦ rw e refl
]

equals_sign :
    (dep s : Text) (c : ℕ)
    → is_space c ≡ false
    → is_some (after_equals dep (equals (c ∷ s))) ≡ (c == b'=' && opens_brace s)
unfolding equals spaces one then_spaces after_equals
equals_sign dep s c h = rw h (signed_brace dep s c)

equals_nil : (dep : Text) → is_some (after_equals dep (equals [])) ≡ false
unfolding equals spaces one then_spaces after_equals
equals_nil dep = refl

pub equals-opens_entry : (dep s : Text) → is_some (after_equals dep (equals s)) ≡ opens_entry s
unfolding opens_entry
equals-opens_entry dep [] = equals_nil dep
equals-opens_entry dep (c ∷ s) = elim (Bool-cases (is_space c)) [
  | inl space ↦ rw space (equals_spaced dep s c space ∙ equals-opens_entry dep s)
  | inr other ↦ rw other (equals_sign dep s c other)
]

named_from : (whole dep s : Text) → is_some (after_name whole (after dep s)) ≡ named_at dep s
unfolding after_name after named_at
named_from whole [] s = equals-opens_entry whole s
named_from whole (d ∷ dep) [] = refl
named_from whole (d ∷ dep) (c ∷ s) = elim (Bool-cases (d == c)) [
  | inl e ↦ rw e (named_from whole dep s)
  | inr e ↦ rw e refl
]

pub pin_at-named_at : (dep s : Text) → is_some (pin_at dep s) ≡ named_at dep s
unfolding pin_at after_name
pin_at-named_at dep s = named_from dep dep s

-- No entry begins in what replaces a key.
pub name_head :
    (d : ℕ) (dep : Text) → is_name (d ∷ dep) ≡ true → (is_space d ≡ false) × ((d == b'=') ≡ false)
unfolding is_name
name_head d dep h = (ground arith, ground arith)

pub name_tail : (d : ℕ) (dep : Text) → is_name (d ∷ dep) ≡ true → is_name dep ≡ true
unfolding is_name
name_tail d dep h = ground arith

pub spaces_head : (s : Text) (c : ℕ) (front : Text) → (spaces s).0 ≡ c ∷ front → is_space c ≡ true
unfolding spaces
spaces_head [] c front h = absurd (cc)
spaces_head (d ∷ s) c front h = elim (Bool-cases (is_space d)) [
  | inl e ↦ ground arith
  | inr e ↦ absurd (ground arith)
]
