-- ===== src/Downstream/Pinned.antt =====
-- ci/bump_downstream.py: `current_pin` reads what `_pin_source` has written.
use traust_contracts.Base.{
  ℕ, ◌≡◌, ◌⊎◌, refl, sym, ◌∙◌, ap, subst, Text, true, false, Option, none, some, [], ◌∷◌, ◌++◌, ok,
  arith, Option-cases, inl, inr,
}
use traust_contracts.Downstream.Pins.{
  Key, Entry, equals, key_at, rev_key, pin_at, or_pin, cons_entry, find_pin, entry_value, pin_in,
  set_rev, pin_source,
}
use traust_contracts.Downstream.Keys.{is_some}
use traust_contracts.Downstream.Refill.{key_at-Parts}
use traust_contracts.Downstream.Repin.{IsValue, Parts-has_quote, after_rev, rev_key-rev}
use traust_contracts.Downstream.Lazy.{Found, cons_entry_parts}
use traust_contracts.Downstream.Entry.{pin_at-Found, pin_at-rev_key}
use traust_contracts.Downstream.Named.{is_name, opens_entry, named_at, pin_at-named_at}
use traust_contracts.Downstream.Unnamed.{unnamed_gap, named_back}

first_or_later :
    (here more : Option Entry) (front : Text) (key : Key)
    → or_pin here more ≡ some (front, key)
    → (here ≡ some (front, key)) ⊎ ((here ≡ none) × (more ≡ some (front, key)))
unfolding or_pin
first_or_later (some entry) more front key h = inl h
first_or_later none more front key h = inr (refl, h)

named_nil : (dep : Text) → named_at dep [] ≡ false
unfolding named_at opens_entry
named_nil [] = refl
named_nil (d ∷ dep) = refl

nowhere : (dep : Text) {entry : Entry} → pin_at dep [] ≡ some entry → ⊥
nowhere dep h =
    let none_found = pin_at-named_at dep [] ∙ named_nil dep in let found = ap is_some h in cc

entry_found :
    (dep s front : Text) (key : Key)
    → pin_at dep s ≡ some (front, key)
    → find_pin dep s ≡ some (front, key)
unfolding find_pin or_pin
entry_found dep [] front key h = absurd (nowhere dep h)
entry_found dep (c ∷ s) front key h = rw h refl

entry_later :
    (dep : Text) (c : ℕ) (s front : Text) (key : Key)
    → pin_at dep (c ∷ s) ≡ none
    → find_pin dep s ≡ some (front, key)
    → find_pin dep (c ∷ s) ≡ some (c ∷ front, key)
unfolding find_pin or_pin cons_entry
entry_later dep c s front key h e = rw h (rw e refl)

unnamed_after :
    (s : Text) (key : Key) (sha tail dep : Text)
    → equals s ≡ some (key.gap, tail)
    → is_name dep ≡ true
    → named_at dep (after_rev key sha) ≡ false
unfolding after_rev
unnamed_after s key sha tail dep e n = unnamed_gap s key.gap tail (sha ++ b'"' ∷ key.rest) dep e n

find_pin-Found :
    (dep s front : Text) (key : Key) → find_pin dep s ≡ some (front, key) → Found s front key
unfolding find_pin
find_pin-Found dep [] front key h = absurd (cc)
find_pin-Found dep (c ∷ s) front key h =
    elim (first_or_later (pin_at dep (c ∷ s)) (cons_entry c (find_pin dep s)) front key h) [
      | inl here ↦ pin_at-Found dep (c ∷ s) front key here
      | inr (gone, later) ↦
          let parts = cons_entry_parts c (find_pin dep s) front key later in
          let rest = find_pin-Found dep s parts.0 key parts.2 in
          record {
            at = rest.at;
            whole = ap (λ x. c ∷ x) rest.whole ∙ ap (λ x. x ++ rest.at) (sym parts.1);
            there = rest.there;
          }
    ]

-- In front of the old entry there was none, and there is none in front of the new one.
entry_none_back :
    (dep : Text) (c : ℕ) (s front : Text) (key : Key) (sha : Text)
    → is_name dep ≡ true
    → Found s front key
    → pin_at dep (c ∷ s) ≡ none
    → pin_at dep (c ∷ (front ++ rev_key key sha)) ≡ none
entry_none_back dep c s front key sha n f h =
    elim (Option-cases (pin_at dep (c ∷ (front ++ rev_key key sha)))) [
      | inl gone ↦ gone
      | inr (entry, e) ↦
          let p = key_at-Parts f.at key f.there in
          let un = λ (d : Text).
            λ (m : is_name d ≡ true). unnamed_after p.more key sha p.tail d p.sign m in
          let old : c ∷ s ≡ (c ∷ front) ++ p.a ∷ p.b ∷ p.c ∷ p.more =
            ap (λ x. c ∷ x) (f.whole ∙ ap (λ x. front ++ x) p.whole) in
          let new : is_some (pin_at dep ((c ∷ front) ++ b'r' ∷ b'e' ∷ b'v' ∷ after_rev key sha))
              ≡ true =
            ap (λ x. is_some (pin_at dep (c ∷ (front ++ x)))) (sym (rev_key-rev key sha))
            ∙ ap is_some e in
          let was : named_at dep ((c ∷ front) ++ p.a ∷ p.b ∷ p.c ∷ p.more) ≡ true =
            named_back p.a p.b p.c p.more (after_rev key sha) p.word (Parts-has_quote f.at key p)
              key (ap key_at (sym p.whole) ∙ f.there) un dep (c ∷ front) n
              (sym (pin_at-named_at dep ((c ∷ front) ++ b'r' ∷ b'e' ∷ b'v' ∷ after_rev key sha))
                ∙ new) in
          let not_was : named_at dep ((c ∷ front) ++ p.a ∷ p.b ∷ p.c ∷ p.more) ≡ false =
            ap (named_at dep) (sym old) ∙ sym (pin_at-named_at dep (c ∷ s)) ∙ ap is_some h in
          absurd (cc)
    ]

find_pin-rev_key :
    (dep s front : Text) (key : Key) (sha : Text)
    → is_name dep ≡ true
    → IsValue sha
    → find_pin dep s ≡ some (front, key)
    → find_pin dep (front ++ rev_key key sha) ≡ some (front, record key { value = sha })
unfolding find_pin
find_pin-rev_key dep [] front key sha n v h = absurd (cc)
find_pin-rev_key dep (c ∷ s) front key sha n v h =
    elim (first_or_later (pin_at dep (c ∷ s)) (cons_entry c (find_pin dep s)) front key h) [
      | inl here ↦
          entry_found dep (front ++ rev_key key sha) front (record key { value = sha })
            (pin_at-rev_key dep (c ∷ s) front key sha v here)
      | inr (gone, later) ↦
          let parts = cons_entry_parts c (find_pin dep s) front key later in
          subst (λ x. find_pin dep (x ++ rev_key key sha) ≡ some (x, record key { value = sha }))
            (sym parts.1)
            (entry_later dep c (parts.0 ++ rev_key key sha) parts.0 (record key { value = sha })
              (entry_none_back dep c s parts.0 key sha n (find_pin-Found dep s parts.0 key parts.2)
                gone)
              (find_pin-rev_key dep s parts.0 key sha n v parts.2))
    ]

set_rev_parts :
    (sha : Text) (found : Option Entry) (text : Text)
    → set_rev sha found ≡ ok text
    → (front : Text) × (key : Key) × (found ≡ some (front, key)) × (text ≡ front ++ rev_key key sha)
unfolding set_rev
set_rev_parts sha none text h = absurd (cc)
set_rev_parts sha (some (front, key)) text h = (front, key, refl, ground arith)

-- Where `_pin_source` returns a text, `current_pin` reads from it the commit that was pinned, and
-- pinning that commit again returns the same text: for a dependency's name without white space or
-- `=`, and a commit that is not empty and has no quote.
pub pin_in-pin_source :
    (text dep sha : Text) {pinned : Text}
    → is_name dep ≡ true
    → IsValue sha
    → pin_source text dep sha ≡ ok pinned
    → (pin_in dep pinned ≡ some sha) × (pin_source pinned dep sha ≡ ok pinned)
unfolding pin_source pin_in set_rev rev_key
pin_in-pin_source text dep sha {pinned} n v h =
    let parts = set_rev_parts sha (find_pin dep text) pinned h in
    let found : find_pin dep pinned ≡ some (parts.0, record parts.1 { value = sha }) =
      ap (find_pin dep) parts.3 ∙ find_pin-rev_key dep text parts.0 parts.1 sha n v parts.2 in
    (ap entry_value found, ap (set_rev sha) found ∙ ap ok (sym parts.3))
