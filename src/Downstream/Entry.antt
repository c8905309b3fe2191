-- ===== src/Downstream/Entry.antt =====
-- ci/bump_downstream.py: the entry of a dependency, up to its key.
use traust_contracts.Base.{
  ◌≡◌, refl, sym, ◌∙◌, ap, Text, after, false, Option, none, some, [], ◌∷◌, ◌++◌, arith,
}
use mathlib.Core.List.{append_assoc}
use traust_contracts.Py.{is_space}
use traust_contracts.Downstream.Pins.{
  Split, Key, Entry, one, equals, rev_key, find_key, in_front, after_brace, after_equals,
  after_name, pin_at,
}
use traust_contracts.Downstream.Refill.{one_parts, equals_again, equals_whole}
use traust_contracts.Downstream.Repin.{IsValue}
use traust_contracts.Downstream.Lazy.{Found, find_key-Found, find_key-rev_key}

-- The parts of an entry that is found.
pub record Opening (dep s front : Text) (key : Key) : Type 0 where
  pub gap : Text
  pub tail : Text
  pub inner : Text
  pub beyond : Text
  pub more : Text
  pub named : after dep s ≡ some beyond
  pub sign : equals beyond ≡ some (gap, tail)
  pub brace : tail ≡ b'{' ∷ inner
  pub found : find_key inner ≡ some (more, key)
  pub whole : front ≡ dep ++ gap ++ b'{' ∷ [] ++ more

in_front_parts :
    (front0 : Text) (found : Option Entry) (front : Text) (key : Key)
    → in_front front0 found ≡ some (front, key)
    → (more : Text) × (found ≡ some (more, key)) × (front ≡ front0 ++ more)
unfolding in_front
in_front_parts front0 none front key h = absurd (cc)
in_front_parts front0 (some (more, k)) front key h = (more, ground arith, ground arith)

after_brace_parts :
    (front0 : Text) (found : Option Split) (front : Text) (key : Key)
    → after_brace front0 found ≡ some (front, key)
    → (brace : Text) × (inner : Text) × (more : Text) × (found ≡ some (brace, inner))
      × (find_key inner ≡ some (more, key))
      × (front ≡ front0 ++ brace ++ more)
unfolding after_brace
after_brace_parts front0 none front key h = absurd (cc)
after_brace_parts front0 (some (brace, inner)) front key h =
    let parts = in_front_parts (front0 ++ brace) (find_key inner) front key h in
    (brace, inner, parts.0, refl, parts.1, parts.2)

after_equals_parts :
    (dep : Text) (found : Option Split) (front : Text) (key : Key)
    → after_equals dep found ≡ some (front, key)
    → (gap : Text) × (tail : Text) × (found ≡ some (gap, tail))
      × (after_brace (dep ++ gap) (one b'{' tail) ≡ some (front, key))
unfolding after_equals
after_equals_parts dep none front key h = absurd (cc)
after_equals_parts dep (some (gap, tail)) front key h = (gap, tail, refl, h)

after_name_parts :
    (dep : Text) (found : Option Text) (front : Text) (key : Key)
    → after_name dep found ≡ some (front, key)
    → (beyond : Text) × (found ≡ some beyond)
      × (after_equals dep (equals beyond) ≡ some (front, key))
unfolding after_name
after_name_parts dep none front key h = absurd (cc)
after_name_parts dep (some beyond) front key h = (beyond, refl, h)

pub pin_at-Opening :
    (dep s front : Text) (key : Key) → pin_at dep s ≡ some (front, key) → Opening dep s front key
unfolding pin_at
pin_at-Opening dep s front key h =
    let name = after_name_parts dep (after dep s) front key h in
    let sign = after_equals_parts dep (equals name.0) front key name.2 in
    let brace = after_brace_parts (dep ++ sign.0) (one b'{' sign.1) front key sign.3 in
    let open_ = one_parts b'{' sign.1 brace.0 brace.1 brace.3 in
    record {
      gap = sign.0;
      tail = sign.1;
      inner = brace.1;
      beyond = name.0;
      more = brace.2;
      named = name.1;
      sign = sign.2;
      brace = open_.1;
      found = brace.4;
      whole = brace.5 ∙ ap (λ x. dep ++ sign.0 ++ x ++ brace.2) open_.0;
    }

regroup :
    (dep gap more s : Text)
    → (dep ++ gap ++ b'{' ∷ [] ++ more) ++ s ≡ dep ++ (gap ++ b'{' ∷ (more ++ s))
regroup dep gap more s = simp (append_assoc)

after_self : (dep s : Text) → after dep (dep ++ s) ≡ some s
unfolding after
after_self [] s = refl
after_self (c ∷ dep) s = ground (arith, after_self dep s)

after_whole : (dep s rest : Text) → after dep s ≡ some rest → s ≡ dep ++ rest
unfolding after
after_whole [] s rest h = ground arith
after_whole (c ∷ dep) [] rest h = absurd (cc)
after_whole (c ∷ dep) (d ∷ s) rest h = ground (arith, after_whole dep s rest)

space_brace : is_space b'{' ≡ false
unfolding is_space
space_brace = refl

pub pin_at-Found :
    (dep s front : Text) (key : Key) → pin_at dep s ≡ some (front, key) → Found s front key
pin_at-Found dep s front key h =
    let p = pin_at-Opening dep s front key h in
    let inner = find_key-Found p.inner p.more key p.found in
    record {
      at = inner.at;
      whole =
          after_whole dep s p.beyond p.named
          ∙ ap (λ x. dep ++ x) (equals_whole p.beyond p.gap p.tail p.sign)
          ∙ ap (λ x. dep ++ (p.gap ++ x)) (p.brace ∙ ap (λ x. b'{' ∷ x) inner.whole)
          ∙ sym (regroup dep p.gap p.more inner.at)
          ∙ ap (λ x. x ++ inner.at) (sym p.whole);
      there = inner.there;
    }

-- The entry that `_pin_source` has rewritten.
pub pin_at-rev_key :
    (dep s front : Text) (key : Key) (sha : Text)
    → IsValue sha
    → pin_at dep s ≡ some (front, key)
    → pin_at dep (front ++ rev_key key sha) ≡ some (front, record key { value = sha })
unfolding pin_at after_name after_equals after_brace one in_front
pin_at-rev_key dep s front key sha v h =
    let p = pin_at-Opening dep s front key h in
    let r = rev_key key sha in
    ap (λ x. pin_at dep (x ++ r)) p.whole
    ∙ ap (pin_at dep) (regroup dep p.gap p.more r)
    ∙ ap (after_name dep) (after_self dep (p.gap ++ b'{' ∷ (p.more ++ r)))
    ∙ ap (after_equals dep)
        (equals_again p.beyond p.gap p.tail (p.more ++ r) b'{' space_brace p.sign)
    ∙ ap (in_front (dep ++ p.gap ++ b'{' ∷ [])) (find_key-rev_key p.inner p.more key sha v p.found)
    ∙ ap (λ x. some (x, record key { value = sha })) (sym p.whole)
