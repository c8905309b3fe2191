-- ===== src/Storage/Identity/Injective.antt =====
-- The bytes that `binding_id` of store.py hashes determine the artifact and its context: every
-- field is delimited, and an absent role is told from a present one.
use traust_contracts.Base.{
  ℕ, ◌≡◌, refl, sym, ◌∙◌, ap, Text, String, List, [], ◌∷◌, ◌++◌, Option, none, some, false, arith,
  ok, >>=-ok,
}
use traust_contracts.Storage.Identity.Utf8.{utf8, utf8-injective, utf8-NoNul, NoNul, has_nul}
use traust_contracts.Storage.Identity.Defs.{
  Binding, identifier_bytes, required_bytes, optional_bytes, role_bytes, identity_bytes,
  binding_domain,
}

-- The part of a binding that its identity covers.
pub record SameIdentity (b b' : Binding) : Type 0 where
  pub scope : b.scope_id ≡ b'.scope_id
  pub subject : b.subject_id ≡ b'.subject_id
  pub run : b.run_id ≡ b'.run_id
  pub layer : b.layer_id ≡ b'.layer_id
  pub role : b.role ≡ b'.role

identifier_bytes-ok :
    (field : String) (v : Text) {x : List ℕ}
    → identifier_bytes field v ≡ ok x
    → (utf8 v ≡ some x) × NoNul x
unfolding identifier_bytes
identifier_bytes-ok field v {x} h = (utf8_x, utf8-NoNul v clean utf8_x)
  where
    utf8_x : utf8 v ≡ some x
    utf8_x = ground arith

    clean : has_nul v ≡ false
    clean = ground arith

-- Two strings without zero bytes that are ended by zero bytes.
zero_end :
    (b b' r r' : List ℕ)
    → NoNul b
    → NoNul b'
    → (b ++ 0 ∷ []) ++ r ≡ (b' ++ 0 ∷ []) ++ r'
    → (b ≡ b') × (r ≡ r')
zero_end [] [] r r' h h' e = ground arith
zero_end [] (y ∷ b') r r' h h' e = ground arith
zero_end (x ∷ b) [] r r' h h' e = ground arith
zero_end (x ∷ b) (y ∷ b') r r' h h' e = ground (arith, zero_end b b' r r' h.1 h'.1)

identifier_prefix :
    (field : String) (v v' : Text) (b b' r r' : List ℕ)
    → identifier_bytes field v ≡ ok b
    → identifier_bytes field v' ≡ ok b'
    → (b ++ 0 ∷ []) ++ r ≡ (b' ++ 0 ∷ []) ++ r'
    → (v ≡ v') × (r ≡ r')
identifier_prefix field v v' b b' r r' h h' e =
    let (u, n) = identifier_bytes-ok field v h in
    let (u', n') = identifier_bytes-ok field v' h' in
    let (same, rest) = zero_end b b' r r' n n' e in
    (utf8-injective v v' u (u' ∙ ap some (sym same)), rest)

required_prefix :
    (field : String) (v v' : Text) {x x' : List ℕ} (r r' : List ℕ)
    → required_bytes field v ≡ ok x
    → required_bytes field v' ≡ ok x'
    → x ++ r ≡ x' ++ r'
    → (v ≡ v') × (r ≡ r')
unfolding required_bytes
required_prefix field v v' {x} {x'} r r' h h' e =
    let (b, hb, eb) = >>=-ok (identifier_bytes field v) _ h in
    let (b', hb', eb') = >>=-ok (identifier_bytes field v') _ h' in
    identifier_prefix field v v' b b' r r' hb hb' (ground arith)

optional_prefix :
    (field : String) (o o' : Option Text) {x x' : List ℕ} (r r' : List ℕ)
    → optional_bytes field o ≡ ok x
    → optional_bytes field o' ≡ ok x'
    → x ++ r ≡ x' ++ r'
    → (o ≡ o') × (r ≡ r')
unfolding optional_bytes
optional_prefix field none none r r' h h' e = ground arith
optional_prefix field none (some v') r r' h h' e =
    let (b', hb', eb') = >>=-ok (identifier_bytes field v') _ h' in ground arith
optional_prefix field (some v) none r r' h h' e =
    let (b, hb, eb) = >>=-ok (identifier_bytes field v) _ h in ground arith
optional_prefix field (some v) (some v') r r' h h' e =
    let (b, hb, eb) = >>=-ok (identifier_bytes field v) _ h in
    let (b', hb', eb') = >>=-ok (identifier_bytes field v') _ h' in
    let (same, rest) = identifier_prefix field v v' b b' r r' hb hb' (ground arith) in
    (ap some same, rest)

role_end : (o o' : Option Text) {x : List ℕ} → role_bytes o ≡ ok x → role_bytes o' ≡ ok x → o ≡ o'
unfolding role_bytes
role_end none none h h' = refl
role_end none (some v') h h' =
    let (b', hb', eb') = >>=-ok (identifier_bytes "role" v') _ h' in ground arith
role_end (some v) none h h' =
    let (b, hb, eb) = >>=-ok (identifier_bytes "role" v) _ h in ground arith
role_end (some v) (some v') h h' =
    let (b, hb, eb) = >>=-ok (identifier_bytes "role" v) _ h in
    let (b', hb', eb') = >>=-ok (identifier_bytes "role" v') _ h' in
    ap some (identifier_prefix "role" v v' b b' [] [] hb hb' (ground arith)).0

-- The bytes of an identity, field by field.
record Parts (digest name : Text) (b : Binding) (z : List ℕ) : Type 0 where
  d : List ℕ
  n : List ℕ
  s : List ℕ
  j : List ℕ
  r : List ℕ
  l : List ℕ
  o : List ℕ
  hd : required_bytes "artifact_digest" digest ≡ ok d
  hn : required_bytes "artifact_name" name ≡ ok n
  hs : required_bytes "scope_id" b.scope_id ≡ ok s
  hj : optional_bytes "subject_id" b.subject_id ≡ ok j
  hr : optional_bytes "run_id" b.run_id ≡ ok r
  hl : optional_bytes "layer_id" b.layer_id ≡ ok l
  ho : role_bytes b.role ≡ ok o
  whole : z ≡ binding_domain ++ (d ++ (n ++ (s ++ (j ++ (r ++ (l ++ o))))))

identity-Parts :
    (digest name : Text) (b : Binding) {z : List ℕ}
    → identity_bytes digest name b ≡ ok z
    → Parts digest name b z
unfolding identity_bytes
identity-Parts digest name b h =
    let (d, hd, h1) = >>=-ok (required_bytes "artifact_digest" digest) _ h in
    let (n, hn, h2) = >>=-ok (required_bytes "artifact_name" name) _ h1 in
    let (s, hs, h3) = >>=-ok (required_bytes "scope_id" b.scope_id) _ h2 in
    let (j, hj, h4) = >>=-ok (optional_bytes "subject_id" b.subject_id) _ h3 in
    let (r, hr, h5) = >>=-ok (optional_bytes "run_id" b.run_id) _ h4 in
    let (l, hl, h6) = >>=-ok (optional_bytes "layer_id" b.layer_id) _ h5 in
    let (o, ho, h7) = >>=-ok (role_bytes b.role) _ h6 in
    record {
      d = d;
      n = n;
      s = s;
      j = j;
      r = r;
      l = l;
      o = o;
      hd = hd;
      hn = hn;
      hs = hs;
      hj = hj;
      hr = hr;
      hl = hl;
      ho = ho;
      whole = cc;
    }

append_cancel : (p r r' : List ℕ) → p ++ r ≡ p ++ r' → r ≡ r'
append_cancel [] r r' e = e
append_cancel (x ∷ p) r r' e = append_cancel p r r' (ground arith)

module _ {digest name digest' name' : Text} {b b' : Binding} {z : List ℕ} where
  cancel :
      (p : Parts digest name b z) (q : Parts digest' name' b' z)
      → p.d ++ (p.n ++ (p.s ++ (p.j ++ (p.r ++ (p.l ++ p.o)))))
        ≡ q.d ++ (q.n ++ (q.s ++ (q.j ++ (q.r ++ (q.l ++ q.o)))))
  cancel p q = append_cancel binding_domain _ _ (sym p.whole ∙ q.whole)

-- Two artifacts and bindings whose `binding_id` hashes the same bytes have the same digest, the
-- same artifact name, and the same scope, subject, run, layer and role.
pub identity_bytes-injective :
    (digest name digest' name' : Text) (b b' : Binding) {z : List ℕ}
    → identity_bytes digest name b ≡ ok z
    → identity_bytes digest' name' b' ≡ ok z
    → (digest ≡ digest') × (name ≡ name') × SameIdentity b b'
identity_bytes-injective digest name digest' name' b b' h h' =
    let p = identity-Parts digest name b h in
    let q = identity-Parts digest' name' b' h' in
    let (ed, rd) = required_prefix "artifact_digest" digest digest' _ _ p.hd q.hd (cancel p q) in
    let (en, rn) = required_prefix "artifact_name" name name' _ _ p.hn q.hn rd in
    let (es, rs) = required_prefix "scope_id" b.scope_id b'.scope_id _ _ p.hs q.hs rn in
    let (ej, rj) = optional_prefix "subject_id" b.subject_id b'.subject_id _ _ p.hj q.hj rs in
    let (er, rr) = optional_prefix "run_id" b.run_id b'.run_id _ _ p.hr q.hr rj in
    let (el, rl) = optional_prefix "layer_id" b.layer_id b'.layer_id _ _ p.hl q.hl rr in
    (
      ed,
      en,
      record {
        scope = es;
        subject = ej;
        run = er;
        layer = el;
        role = role_end b.role b'.role p.ho (q.ho ∙ ap ok (sym rl));
      },
    )
