-- ===== src/Downstream/Lazy.antt =====
-- ci/bump_downstream.py: the lazy search for a key finds the key that was written in its place.
use traust_contracts.Base.{
  ℕ, ◌==◌, ◌≡◌, ◌≢◌, ◌⊎◌, refl, sym, ◌∙◌, ap, subst, Text, true, false, Option, none, some, [], ◌∷◌,
  ◌++◌, arith, Bool-cases, Option-cases, inl, inr,
}
use traust_contracts.Py.{is_space}
use traust_contracts.Downstream.Pins.{Key, key_at, rev_key, find_key, choose_key, cons_entry, Entry}
use traust_contracts.Downstream.Keys.{has_quote, is_some, opens_key_back}
use traust_contracts.Downstream.Refill.{is_word, opens_word, key_at-opens_word, key_at-Parts}
use traust_contracts.Downstream.Repin.{
  IsValue, Parts-has_quote, after_rev, rev_key-rev, key_at-rev_key,
}

-- The first letter of `tag` and `rev`.
pub record Letter (a : ℕ) : Type 0 where
  pub space : is_space a ≡ false
  pub quote : (a == b'"') ≡ false
  pub sign : (a == b'=') ≡ false

t-Letter : Letter b't'
unfolding is_space
t-Letter = record { space = refl; quote = refl; sign = refl }

r-Letter : Letter b'r'
unfolding is_space
r-Letter = record { space = refl; quote = refl; sign = refl }

word_letter : (a b c : ℕ) → is_word a b c ≡ true → (a ≡ b't') ⊎ (a ≡ b'r')
unfolding is_word
word_letter a b c h = elim (Bool-cases (a == b't')) [
  | inl t ↦ inl (ground arith)
  | inr other ↦ inr (ground arith)
]

pub word-Letter : (a b c : ℕ) → is_word a b c ≡ true → Letter a
word-Letter a b c h = elim (word_letter a b c h) [
  | inl t ↦ subst Letter (sym t) t-Letter
  | inr r ↦ subst Letter (sym r) r-Letter
]

module _ (a b c : ℕ) (o f : Text) (word : is_word a b c ≡ true) (q : has_quote o ≡ true) where
  quote_behind : has_quote (b ∷ c ∷ o) ≡ true
  unfolding has_quote
  quote_behind = ground arith

  -- A key that begins in front of the one that is written began in front of the old one.
  word_back :
      (d : ℕ) (x : Text)
      → opens_word (d ∷ (x ++ b'r' ∷ b'e' ∷ b'v' ∷ f)) ≡ true
      → opens_word (d ∷ (x ++ a ∷ b ∷ c ∷ o)) ≡ true
  unfolding opens_word is_word
  word_back d [] h = absurd (ground arith)
  word_back d (e ∷ []) h = absurd (ground arith)
  word_back d (e ∷ e' ∷ x) h =
      let l = word-Letter a b c word in
      ground (
        arith,
        opens_key_back (b'e' ∷ b'v' ∷ f) (b ∷ c ∷ o) a l.space l.quote l.sign quote_behind x,
      )

  pub key_back :
      (d : ℕ) (x : Text)
      → is_some (key_at (d ∷ (x ++ b'r' ∷ b'e' ∷ b'v' ∷ f))) ≡ true
      → is_some (key_at (d ∷ (x ++ a ∷ b ∷ c ∷ o))) ≡ true
  key_back d x h =
      key_at-opens_word (d ∷ (x ++ a ∷ b ∷ c ∷ o))
      ∙ word_back d x (sym (key_at-opens_word (d ∷ (x ++ b'r' ∷ b'e' ∷ b'v' ∷ f))) ∙ h)

  pub find_key_back :
      (key : Key) (x : Text)
      → key_at (a ∷ b ∷ c ∷ o) ≡ some key
      → is_some (find_key (x ++ b'r' ∷ b'e' ∷ b'v' ∷ f)) ≡ true
      → is_some (find_key (x ++ a ∷ b ∷ c ∷ o)) ≡ true
  unfolding find_key choose_key cons_entry
  find_key_back key [] k h = rw k refl
  find_key_back key (d ∷ x) k h = ground (arith, key_back d x, find_key_back key x k)

-- Where a key was found.
pub record Found (s front : Text) (key : Key) : Type 0 where
  pub at : Text
  pub whole : s ≡ front ++ at
  pub there : key_at at ≡ some key

pub cons_entry_parts :
    (c : ℕ) (found : Option Entry) (front : Text) (key : Key)
    → cons_entry c found ≡ some (front, key)
    → (more : Text) × (front ≡ c ∷ more) × (found ≡ some (more, key))
unfolding cons_entry
cons_entry_parts c none front key h = absurd (cc)
cons_entry_parts c (some (more, k)) front key h = (more, ground arith, ground arith)

record Later (c : ℕ) (found : Option Key) (more : Option Entry) (front : Text) (key : Key)
    : Type 0 where
  none_here : found ≡ none
  no_brace : (c == b'}') ≡ false
  further : more ≡ some (front, key)

choice :
    (c : ℕ) (found : Option Key) (more : Option Entry) (front : Text) (key : Key)
    → choose_key c found more ≡ some (front, key)
    → ((front ≡ []) × (found ≡ some key)) ⊎ Later c found more front key
unfolding choose_key
choice c (some k) more front key h = inl (ground arith, ground arith)
choice c none more front key h =
    inr (record { none_here = refl; no_brace = ground arith; further = ground arith })

pub find_key-Found :
    (s front : Text) (key : Key) → find_key s ≡ some (front, key) → Found s front key
unfolding find_key
find_key-Found [] front key h = absurd (cc)
find_key-Found (c ∷ s) front key h =
    elim (choice c (key_at (c ∷ s)) (cons_entry c (find_key s)) front key h) [
      | inl here ↦ record { at = c ∷ s; whole = ap (λ x. x ++ c ∷ s) (sym here.0); there = here.1 }
      | inr later ↦
          let parts = cons_entry_parts c (find_key s) front key later.further in
          let rest = find_key-Found s parts.0 key parts.2 in
          record {
            at = rest.at;
            whole = ap (λ x. c ∷ x) rest.whole ∙ ap (λ x. x ++ rest.at) (sym parts.1);
            there = rest.there;
          }
    ]

-- In front of the old key there was none, and there is none in front of the new one.
pub key_none_back :
    (c : ℕ) (s front : Text) (key : Key) (sha : Text)
    → Found s front key
    → key_at (c ∷ s) ≡ none
    → key_at (c ∷ (front ++ rev_key key sha)) ≡ none
key_none_back c s front key sha f h =
    elim (Option-cases (key_at (c ∷ (front ++ rev_key key sha)))) [
      | inl gone ↦ gone
      | inr (k, e) ↦
          let p = key_at-Parts f.at key f.there in
          let found : is_some (key_at (c ∷ (front ++ p.a ∷ p.b ∷ p.c ∷ p.more))) ≡ true =
            key_back p.a p.b p.c p.more (after_rev key sha) p.word (Parts-has_quote f.at key p) c
              front
              (ap (λ x. is_some (key_at (c ∷ (front ++ x)))) (sym (rev_key-rev key sha))
                ∙ ap is_some e) in
          let old : c ∷ s ≡ c ∷ (front ++ p.a ∷ p.b ∷ p.c ∷ p.more) =
            ap (λ x. c ∷ x) (f.whole ∙ ap (λ x. front ++ x) p.whole) in
          let none_found : is_some (key_at (c ∷ (front ++ p.a ∷ p.b ∷ p.c ∷ p.more))) ≡ false =
            ap (λ x. is_some (key_at x)) (sym old) ∙ ap is_some h in
          absurd (cc)
    ]

find_at : (s : Text) (key : Key) → key_at s ≡ some key → s ≢ [] → find_key s ≡ some ([], key)
unfolding find_key choose_key
find_at [] key h n = absurd (n refl)
find_at (c ∷ s) key h n = rw h refl

rev_key-ne-nil : (key : Key) (sha : Text) → rev_key key sha ≢ []
rev_key-ne-nil key sha e = cc (rev_key-rev key sha)

pub further_on :
    (c : ℕ) (s front : Text) (key : Key)
    → key_at (c ∷ s) ≡ none
    → (c == b'}') ≡ false
    → find_key s ≡ some (front, key)
    → find_key (c ∷ s) ≡ some (c ∷ front, key)
unfolding find_key choose_key cons_entry
further_on c s front key h n e = rw h (rw n (rw e refl))

pub find_key-rev_key :
    (s front : Text) (key : Key) (sha : Text)
    → IsValue sha
    → find_key s ≡ some (front, key)
    → find_key (front ++ rev_key key sha) ≡ some (front, record key { value = sha })
unfolding find_key
find_key-rev_key [] front key sha v h = absurd (cc)
find_key-rev_key (c ∷ s) front key sha v h =
    elim (choice c (key_at (c ∷ s)) (cons_entry c (find_key s)) front key h) [
      | inl here ↦
          subst (λ x. find_key (x ++ rev_key key sha) ≡ some (x, record key { value = sha }))
            (sym here.0)
            (find_at (rev_key key sha) (record key { value = sha })
              (key_at-rev_key (c ∷ s) key sha here.1 v) (rev_key-ne-nil key sha))
      | inr later ↦
          let parts = cons_entry_parts c (find_key s) front key later.further in
          subst (λ x. find_key (x ++ rev_key key sha) ≡ some (x, record key { value = sha }))
            (sym parts.1)
            (further_on c (parts.0 ++ rev_key key sha) parts.0 (record key { value = sha })
              (key_none_back c s parts.0 key sha (find_key-Found s parts.0 key parts.2)
                later.none_here)
              later.no_brace (find_key-rev_key s parts.0 key sha v parts.2))
    ]
