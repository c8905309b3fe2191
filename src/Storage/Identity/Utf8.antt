-- ===== src/Storage/Identity/Utf8.antt =====
-- `str.encode("utf-8")`, which store.py applies to every identifier. A lone surrogate has no
-- encoding. Different texts have different bytes, and no text without NUL has a zero byte.
use Prim.Native.Nat.{ℕ, ◌+◌, ◌/◌, ◌%◌, ◌<◌}
use traust_contracts.Base.{
  ◌≡◌, ◌≢◌, refl, ap, sym, ◌∙◌, Text, Bool, false, ◌&&◌, List, [], ◌∷◌, ◌++◌, Option, none, some,
  ltb, leb, ◌==◌, if◌then◌else◌, arith, All, All-append, any,
}

-- The bytes of one code point.
unfoldable pub utf8_char : ℕ → Option (List ℕ)
utf8_char c =
    if ltb c 0x80
    then some (c ∷ [])
    else if ltb c 0x800
    then some ((0xc0 + c / 64) ∷ (0x80 + c % 64) ∷ [])
    else if leb 0xd800 c && ltb c 0xe000
    then none
    else if ltb c 0x10000
    then some ((0xe0 + c / 4096) ∷ (0x80 + c / 64 % 64) ∷ (0x80 + c % 64) ∷ [])
    else if ltb c 0x110000
    then some
        ((0xf0 + c / 262144) ∷ (0x80 + c / 4096 % 64) ∷ (0x80 + c / 64 % 64) ∷ (0x80 + c % 64) ∷ [])
    else none

abbrev pub join : Option (List ℕ) → Option (List ℕ) → Option (List ℕ)
join none ys = none
join (some xs) none = none
join (some xs) (some ys) = some (xs ++ ys)

unfoldable pub utf8 : Text → Option (List ℕ)
utf8 [] = some []
utf8 (c ∷ s) = join (utf8_char c) (utf8 s)

-- The encoding is a prefix code.
utf8_char_prefix :
    (c d : ℕ) (x y r r' : List ℕ)
    → utf8_char c ≡ some x
    → utf8_char d ≡ some y
    → x ++ r ≡ y ++ r'
    → (c ≡ d) × (r ≡ r')
unfolding utf8_char
utf8_char_prefix c d x y r r' hx hy h = ground arith

utf8_char-ne-nil : (c : ℕ) → utf8_char c ≢ some []
unfolding utf8_char
utf8_char-ne-nil c h = ground arith

join-inv :
    (o p : Option (List ℕ)) {z : List ℕ}
    → join o p ≡ some z
    → (x : List ℕ) × (y : List ℕ) × (o ≡ some x) × (p ≡ some y) × (z ≡ x ++ y)
join-inv none p h = cc
join-inv (some x) none h = cc
join-inv (some x) (some y) h = (x, y, refl, refl, ground arith)

-- Two texts with the same UTF-8 bytes are the same text.
pub utf8-injective : (s t : Text) {z : List ℕ} → utf8 s ≡ some z → utf8 t ≡ some z → s ≡ t
unfolding utf8
utf8-injective [] [] hs ht = refl
utf8-injective [] (d ∷ t) hs ht =
    let (x, y, hx, hy, e) = join-inv (utf8_char d) (utf8 t) ht in
    absurd (utf8_char-ne-nil d (ground arith))
utf8-injective (c ∷ s) [] hs ht =
    let (x, y, hx, hy, e) = join-inv (utf8_char c) (utf8 s) hs in
    absurd (utf8_char-ne-nil c (ground arith))
utf8-injective (c ∷ s) (d ∷ t) hs ht =
    let (x, y, hx, hy, e) = join-inv (utf8_char c) (utf8 s) hs in
    let (x', y', hx', hy', e') = join-inv (utf8_char d) (utf8 t) ht in
    let both = utf8_char_prefix c d x x' y y' hx hx' (cc) in
    cc (both.0, utf8-injective s t hy (hy' ∙ ap some (sym both.1)))

-- No byte is zero.
abbrev pub NoNul : List ℕ → Type 0
NoNul = All (λ b. 0 < b)

abbrev pub has_nul : Text → Bool
has_nul = any (λ c. c == 0)

utf8_char-NoNul : (c : ℕ) {x : List ℕ} → 0 < c → utf8_char c ≡ some x → NoNul x
unfolding utf8_char
utf8_char-NoNul c h e = ground arith

-- The bytes of a text without NUL hold no zero byte.
pub utf8-NoNul : (s : Text) {z : List ℕ} → has_nul s ≡ false → utf8 s ≡ some z → NoNul z
unfolding utf8
utf8-NoNul [] h e = ground arith
utf8-NoNul (c ∷ s) h e =
    let (x, y, hx, hy, ez) = join-inv (utf8_char c) (utf8 s) e in
    rw ez (All-append _ x y (utf8_char-NoNul c (ground arith) hx) (utf8-NoNul s (ground arith) hy))
