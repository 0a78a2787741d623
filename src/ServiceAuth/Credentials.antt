-- ===== src/ServiceAuth/Credentials.antt =====
-- Whose credential a request needs.
use mathlib.Core.List.{append-nil}
use mathlib.Core.Option.{some-injective}
use text.Mathlib.TextLemmas.{nil-append, cons-append}
use text.Mathlib.TextEquality.{Char-path}
use Prim.Native.Char.{code}
use Prim.Native.String.{[] as nil, ◌∷◌ as cons}
use Prim.Native.String
use tinycloud_agents.Base.{
  ◌≡◌, ◌≢◌, ◌↔◌, inl, inr, refl, Bool, true, false, Option, none, some, List, [], ◌++◌, String,
  nat_beq, if◌then◌else◌, ◌===◌, text_eq, arith, Bool-cases, Option-cases, ap, sym, subst, ◌∙◌,
}
use tinycloud_agents.ServiceAuth.{
  Environment, AppEntry, ResolvedApp, entry_of, find_app, resolved, tinychat, artifactory,
  build_registry, resolve_app, after_prefix, answer_to, check_service_auth,
}

-- The secret `credential`, not empty, is the app's own; TinyChat comes first.
pub data IsSecretOf (env : Environment) (credential : String) : ResolvedApp → Type 0 where
  of_tinychat : env.eliza_service_secret ≡ some credential → IsSecretOf env credential tinychat
  of_artifactory :
      env.artifactory_service_secret ≡ some credential
      → env.eliza_service_secret ≢ some credential
      → IsSecretOf env credential artifactory

abbrev is_it : Option String → String → Bool
is_it none credential = false
is_it (some s) credential = s === credential

is_it_iff :
    (o : Option String) (credential : String) → (is_it o credential ≡ true) ↔ (o ≡ some credential)
is_it_iff none credential = ground arith
is_it_iff (some s) credential = (
  λ e. ap some ((text_eq.same-eq s credential).0 e),
  λ e. (text_eq.same-eq s credential).1 (cc e),
)

find_entry :
    (credential : String) (app : ResolvedApp) (o : Option String) (rest : List AppEntry)
    → credential ≢ ""
    → find_app credential (entry_of app o ++ rest)
      ≡ (if is_it o credential then some app else find_app credential rest)
find_entry credential app none rest given = refl
find_entry credential app (some s) rest given = elim (Bool-cases (s === "")) [
  | inr full ↦ rw (full) refl
  | inl empty ↦ elim (Bool-cases (s === credential)) [
    | inr other ↦ rw (empty, other) refl
    | inl same ↦
        absurd
          (given (sym ((text_eq.same-eq s credential).0 same) ∙ (text_eq.same-eq s "").0 empty))
  ]
]

some_inv : (a b : ResolvedApp) → some a ≡ some b → a ≡ b
some_inv a b e = cc e

resolved_as :
    (env : Environment) (credential : String)
    → credential ≢ ""
    → resolve_app env credential ≡ (
        if is_it env.eliza_service_secret credential
        then some tinychat
        else if is_it env.artifactory_service_secret credential
        then some artifactory
        else none)
unfolding resolve_app build_registry
resolved_as env credential given = elim (Bool-cases (credential === "")) [
  | inl empty ↦ absurd (given ((text_eq.same-eq credential "").0 empty))
  | inr full ↦
      let a = find_entry credential artifactory env.artifactory_service_secret [] given in
      let e : find_app credential (entry_of artifactory env.artifactory_service_secret)
          ≡ (if is_it env.artifactory_service_secret credential then some artifactory else none) =
        ap (find_app credential) (sym (append-nil _)) ∙ a in
      rw
        (
          full,
          find_entry credential tinychat env.eliza_service_secret
              (entry_of artifactory env.artifactory_service_secret) given,
          e,
        )
        refl
]

module _ (env : Environment) (credential : String) (given : credential ≢ "") where
  as_tinychat :
      is_it env.eliza_service_secret credential ≡ true → resolve_app env credential ≡ some tinychat
  as_tinychat t = resolved_as env credential given ∙ rw (t) refl

  as_artifactory :
      is_it env.eliza_service_secret credential ≡ false
      → is_it env.artifactory_service_secret credential ≡ true
      → resolve_app env credential ≡ some artifactory
  as_artifactory t a = resolved_as env credential given ∙ rw (t, a) refl

  as_nobody :
      is_it env.eliza_service_secret credential ≡ false
      → is_it env.artifactory_service_secret credential ≡ false
      → resolve_app env credential ≡ none
  as_nobody t a = resolved_as env credential given ∙ rw (t, a) refl

  holder :
      (app : ResolvedApp) → resolve_app env credential ≡ some app → IsSecretOf env credential app
  holder app q = elim (Bool-cases (is_it env.eliza_service_secret credential)) [
    | inl t ↦
        subst (IsSecretOf env credential) (some_inv _ _ (sym (as_tinychat t) ∙ q))
          (of_tinychat ((is_it_iff env.eliza_service_secret credential).0 t))
    | inr t ↦ elim (Bool-cases (is_it env.artifactory_service_secret credential)) [
      | inl a ↦ subst (IsSecretOf env credential) (some_inv _ _ (sym (as_artifactory t a) ∙ q)) (
          of_artifactory ((is_it_iff env.artifactory_service_secret credential).0 a)
            (λ e. absurd (cc ((is_it_iff env.eliza_service_secret credential).1 e, t))))
      | inr a ↦ absurd (cc (as_nobody t a, q))
    ]
  ]

  held : (app : ResolvedApp) → IsSecretOf env credential app → resolve_app env credential ≡ some app
  held _ (of_tinychat e) = as_tinychat ((is_it_iff env.eliza_service_secret credential).1 e)
  held _ (of_artifactory e other) = elim (Bool-cases (is_it env.eliza_service_secret credential)) [
    | inl t ↦ absurd (other ((is_it_iff env.eliza_service_secret credential).0 t))
    | inr t ↦ as_artifactory t ((is_it_iff env.artifactory_service_secret credential).1 e)
  ]

answer_to_iff :
    (o : Option ResolvedApp) (app : ResolvedApp) → (answer_to o ≡ resolved app) ↔ (o ≡ some app)
unfolding answer_to
answer_to_iff none app = (λ q. absurd (cc q), λ q. absurd (cc q))
answer_to_iff (some a) app = (λ q. cc q, λ q. cc q)

with_header :
    (env : Environment) (header : String) (app : ResolvedApp)
    → (check_service_auth env (some header) ≡ resolved app)
      ↔ ((c : String) × (after_prefix "Bearer " header ≡ some c) × (c ≢ "") × IsSecretOf env c app)
unfolding check_service_auth
with_header env header app = elim (Option-cases (after_prefix "Bearer " header)) [
  | inl other ↦ (λ q. absurd (ground (arith, q, other)), λ (c, e, given, h). absurd (cc (e, other)))
  | inr (c, e) ↦ elim (Bool-cases (c === "")) [
    | inl empty ↦ (
      λ q. absurd (ground (arith, q, e, empty)),
      λ (b, f, given, h). absurd (given (cc (e, f, (text_eq.same-eq c "").0 empty))),
    )
    | inr full ↦
        let given : c ≢ "" = λ q. cc (full, (text_eq.same-eq c "").1 q) in
        let answer : check_service_auth env (some header) ≡ answer_to (resolve_app env c) =
          ground (arith, e, full) in
        let k = answer_to_iff (resolve_app env c) app in
        (
          λ q. (c, e, given, holder env c given app (k.0 (sym answer ∙ q))),
          λ (b, f, g, h).
              answer
              ∙ k.1 (
                  held env c given app
                    (subst (λ (x : String). IsSecretOf env x app) (cc (e, f)) h)),
        )
  ]
]

after_prefix-append : (p c : String) → after_prefix p (String.◌++◌ p c) ≡ some c
unfolding after_prefix
after_prefix-append nil c = ap some (nil-append c)
after_prefix-append (cons x p) c =
    ap (after_prefix (cons x p)) (cons-append x p c) ∙ ground (arith, after_prefix-append p c)

append-after_prefix : (p s c : String) → after_prefix p s ≡ some c → s ≡ String.◌++◌ p c
unfolding after_prefix
append-after_prefix nil s c e = some-injective s c e ∙ sym (nil-append c)
append-after_prefix (cons x p) nil c e = absurd (cc e)
append-after_prefix (cons x p) (cons y s) c e = elim (Bool-cases (nat_beq (code x) (code y))) [
  | inr n ↦ absurd (ground (arith, n, e))
  | inl same ↦
      let first : x ≡ y = Char-path x y (ground (arith, same)) in
      let rest : s ≡ String.◌++◌ p c = append-after_prefix p s c (ground (arith, same, e)) in
      let both : cons y s ≡ cons x (String.◌++◌ p c) = cc (first, rest) in
      both ∙ sym (cons-append x p c)
]

-- A request is let in as an app just where its Authorization header is `Bearer `, spelled so,
-- followed by a credential, not empty, that is the app's secret; a secret that both apps have is
-- TinyChat's.
pub check_service_auth_iff :
    (env : Environment) (authorization : Option String) (app : ResolvedApp)
    → (check_service_auth env authorization ≡ resolved app) ↔ (
        (c : String) × (authorization ≡ some (String.◌++◌ "Bearer " c))
        × (c ≢ "")
        × IsSecretOf env c app)
unfolding check_service_auth
check_service_auth_iff env none app = (λ q. absurd (cc q), λ (c, e, given, h). absurd (cc e))
check_service_auth_iff env (some header) app =
    let k = with_header env header app in
    (
      λ q.
          let (c, e, given, h) = k.0 q in
          (c, ap some (append-after_prefix "Bearer " header c e), given, h),
      λ (c, e, given, h).
          let same : header ≡ String.◌++◌ "Bearer " c = some-injective header _ e in
          k.1 (c, ap (after_prefix "Bearer ") same ∙ after_prefix-append "Bearer " c, given, h),
    )
