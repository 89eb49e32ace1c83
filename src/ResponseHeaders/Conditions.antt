-- ===== src/ResponseHeaders/Conditions.antt =====
-- keep_alive_header.rs, deprecation_header.rs, no_caching.rs, web_security.rs: when a header is to be
-- added, by the request, its endpoint and the configuration alone.
use witchcraft_rust_server.Common.{
  ℕ, ◌+◌, ◌*◌, ◌/◌, ◌≤◌, ◌<◌, ◌≡◌, ◌↔◌, ◌⊎◌, refl, sym, ap, ◌∙◌, Bool, true, false, not, ◌&&◌, ◌||◌,
  ◌==◌, Option, none, some, List, [], ◌∷◌, ◌++◌, if◌then◌else◌, is_some, inl, inr, Bool-cases,
  Option-cases, arith,
}
use witchcraft_rust_server.Http.{Text, eq_text, eq_text→eq, text}
use witchcraft_rust_server.Assoc.{lookup}
use witchcraft_rust_server.Install.{ServerConfig}
use witchcraft_rust_server.ExtendedPath.{EndpointMetadata}
use witchcraft_rust_server.ResponseHeaders.{
  HeaderMap, Request, Route, Version, cache_control, contains, http_09, http_10, http_11, http_2,
  http_3, is_deprecated, is_ie, keep_alive_value, keeps_alive, not_resolved, resolved, starts_with,
}

-- The value where the condition holds, and nothing where it does not
abbrev pub Chosen : Type 0 → Text → Option Text → Type 0
Chosen P v o = (P → o ≡ some v) × (¬ P → o ≡ none)

abbrev pub guarded : Bool → Text → Option Text
guarded b v = if b then some v else none

pub guarded-Chosen : (P : Type 0) (b : Bool) (v : Text) → (b ≡ true) ↔ P → Chosen P v (guarded b v)
guarded-Chosen P true v (to, from) = ((λ p. refl), (λ n. absurd (n (to refl))))
guarded-Chosen P false v (to, from) =
    ((λ p. absurd (let k : false ≡ true = from p in ground arith)), (λ n. refl))

-- The endpoint was found, and it is deprecated.
abbrev pub IsDeprecated : Route → Type 0
IsDeprecated route =
    (e : EndpointMetadata) × (reason : Text) × (route ≡ resolved e) × (e.deprecated ≡ some reason)

pub IsDeprecated-iff : (route : Route) → (is_deprecated route ≡ true) ↔ IsDeprecated route
IsDeprecated-iff (resolved e) = (
  (λ h. elim (Option-cases e.deprecated) [
    | inl n ↦ absurd (let k : false ≡ true = sym (ap is_some n) ∙ h in ground arith)
    | inr (reason, d) ↦ (e, reason, refl, d)
  ]),
  (λ (e', reason, r, d). ap is_deprecated r ∙ ap is_some d),
)
IsDeprecated-iff not_resolved =
    ((λ h. absurd (ground arith)), (λ (e, reason, r, d). ap is_deprecated r ∙ ap is_some d))

-- A GET whose answer has no such header yet
abbrev pub IsCacheable : Request → HeaderMap → Type 0
IsCacheable req headers = (req.method ≡ text "GET") × (lookup cache_control headers ≡ none)

pub IsCacheable-iff :
    (req : Request) (headers : HeaderMap)
    → ((eq_text req.method (text "GET") && not (is_some (lookup cache_control headers))) ≡ true)
      ↔ IsCacheable req headers
IsCacheable-iff req headers = (
  (λ h. elim (Bool-cases (eq_text req.method (text "GET"))) [
    | inr e ↦ absurd (ground arith)
    | inl e ↦ elim (Option-cases (lookup cache_control headers)) [
      | inl n ↦ (eq_text→eq req.method (text "GET") e, n)
      | inr (v, f) ↦ absurd (let k = ap is_some f in ground arith)
    ]
  ]),
  (λ (m, n). rw (m, n) refl),
)

abbrev pub IsHttp1 : Version → Type 0
IsHttp1 v = (v ≡ http_09) ⊎ (v ≡ http_10) ⊎ (v ≡ http_11)

-- The header `Keep-Alive`: the time-out in whole seconds, rounded down, for a version before 2
pub record KeepsAlive (decimal : ℕ → Text) (c : ServerConfig) (v : Version) (o : Option Text)
    : Type 0 where
  in_seconds :
      (millis : ℕ)
      → c.idle_connection_timeout ≡ some millis
      → IsHttp1 v
      → (seconds : ℕ) × (seconds * 1000 ≤ millis)
        × (millis < seconds * 1000 + 1000)
        × (o ≡ some (text "timeout=" ++ decimal seconds))
  not_configured : c.idle_connection_timeout ≡ none → o ≡ none
  not_http_1 : ¬ IsHttp1 v → o ≡ none

keeps_alive-http_1 : (v : Version) (o : Option Text) → IsHttp1 v → keeps_alive v o ≡ o
keeps_alive-http_1 v o (inl e) = rw e refl
keeps_alive-http_1 v o (inr (inl e)) = rw e refl
keeps_alive-http_1 v o (inr (inr e)) = rw e refl

keeps_alive-none : (v : Version) → keeps_alive v none ≡ none
keeps_alive-none http_09 = refl
keeps_alive-none http_10 = refl
keeps_alive-none http_11 = refl
keeps_alive-none http_2 = refl
keeps_alive-none http_3 = refl

keeps_alive-other : (v : Version) (o : Option Text) → ¬ IsHttp1 v → keeps_alive v o ≡ none
keeps_alive-other http_09 o n = absurd (n (inl refl))
keeps_alive-other http_10 o n = absurd (n (inr (inl refl)))
keeps_alive-other http_11 o n = absurd (n (inr (inr refl)))
keeps_alive-other http_2 o n = refl
keeps_alive-other http_3 o n = refl

pub keeps_alive-KeepsAlive :
    (decimal : ℕ → Text) (c : ServerConfig) (v : Version)
    → KeepsAlive decimal c v (keeps_alive v (keep_alive_value decimal c))
unfolding keep_alive_value
keeps_alive-KeepsAlive decimal c v = record {
  in_seconds = λ millis e h. (
    millis / 1000,
    omega arith,
    omega arith,
    keeps_alive-http_1 v (keep_alive_value decimal c) h ∙ rw e refl,
  );
  not_configured = λ e. rw e (keeps_alive-none v);
  not_http_1 = keeps_alive-other v (keep_alive_value decimal c);
}

-- The pattern stands somewhere in the text.
abbrev pub Contains : Text → Text → Type 0
Contains pattern s = (before : Text) × (after : Text) × (s ≡ before ++ (pattern ++ after))

starts_with-prefix : (p s : Text) → starts_with p s ≡ true → (after : Text) × (s ≡ p ++ after)
unfolding starts_with
starts_with-prefix [] s h = (s, refl)
starts_with-prefix (a ∷ p) [] h = absurd (ground arith)
starts_with-prefix (a ∷ p) (b ∷ s) h = elim (Bool-cases (a == b)) [
  | inr e ↦
      absurd (let k : false ≡ true = sym (ap (λ x. x && starts_with p s) e) ∙ h in ground arith)
  | inl e ↦
      let (after, rest) = starts_with-prefix p s (rw e at h) in
      let same : b ≡ a = ground arith in (after, ap (λ x. x ∷ s) same ∙ ap (λ t. a ∷ t) rest)
]

starts_with-append : (p after : Text) → starts_with p (p ++ after) ≡ true
unfolding starts_with
starts_with-append [] after = refl
starts_with-append (a ∷ p) after =
    let e : (a == a) ≡ true = ground arith in rw e (starts_with-append p after)

contains-Contains : (p s : Text) → contains p s ≡ true → Contains p s
unfolding contains
contains-Contains p [] h = let (after, e) = starts_with-prefix p [] h in ([], after, e)
contains-Contains p (b ∷ s) h = elim (Bool-cases (starts_with p (b ∷ s))) [
  | inl e ↦ let (after, k) = starts_with-prefix p (b ∷ s) e in ([], after, k)
  | inr e ↦
      let (before, after, k) = contains-Contains p s (rw e at h) in
      (b ∷ before, after, ap (λ t. b ∷ t) k)
]

contains-append : (p before after : Text) → contains p (before ++ (p ++ after)) ≡ true
unfolding contains
contains-append [] [] [] = refl
contains-append [] [] (c ∷ after) = refl
contains-append (a ∷ p) [] after = rw (starts_with-append (a ∷ p) after) refl
contains-append p (b ∷ before) after =
    elim (Bool-cases (starts_with p (b ∷ before ++ (p ++ after)))) [
      | inl e ↦ rw e refl
      | inr e ↦ rw e (contains-append p before after)
    ]

-- The first `User-Agent` is readable, and that of an Internet Explorer 10 or 11.
abbrev pub IsExplorer : (Text → Bool) → Request → Type 0
IsExplorer is_visible req =
    (agent : Text) × (more : List Text) × (lookup (text "user-agent") req.headers
      ≡ some (agent ∷ more))
    × (is_visible agent ≡ true)
    × (Contains (text "MSIE 10") agent ⊎ Contains (text "rv:11.0") agent)

or-cases : (a b : Bool) → (a || b) ≡ true → (a ≡ true) ⊎ (b ≡ true)
or-cases true b h = inl refl
or-cases false b h = inr h

names_explorer :
    (agent : Text)
    → Contains (text "MSIE 10") agent ⊎ Contains (text "rv:11.0") agent
    → (contains (text "MSIE 10") agent || contains (text "rv:11.0") agent) ≡ true
names_explorer agent (inl (before, after, e)) =
    let k : contains (text "MSIE 10") agent ≡ true =
      ap (contains (text "MSIE 10")) e ∙ contains-append (text "MSIE 10") before after in
    rw k refl
names_explorer agent (inr (before, after, e)) =
    let k : contains (text "rv:11.0") agent ≡ true =
      ap (contains (text "rv:11.0")) e ∙ contains-append (text "rv:11.0") before after in
    elim (Bool-cases (contains (text "MSIE 10") agent)) [
      | inl a ↦ rw a refl
      | inr a ↦ rw (a, k) refl
    ]

explorer_of :
    (is_visible : Text → Bool) (agent : Text)
    → (is_visible agent && (contains (text "MSIE 10") agent || contains (text "rv:11.0") agent))
      ≡ true
    → (is_visible agent ≡ true)
      × (Contains (text "MSIE 10") agent ⊎ Contains (text "rv:11.0") agent)
explorer_of is_visible agent h = elim (Bool-cases (is_visible agent)) [
  | inr v ↦ absurd (ground arith)
  | inl v ↦ (
    v,
    elim (or-cases (contains (text "MSIE 10") agent) (contains (text "rv:11.0") agent)
        (rw v at h)) [
          | inl k ↦ inl (contains-Contains (text "MSIE 10") agent k)
          | inr k ↦ inr (contains-Contains (text "rv:11.0") agent k)
        ],
  )
]

agent_cases :
    (o : Option (List Text))
    → ((o ≡ none) ⊎ (o ≡ some []))
      ⊎ ((agent : Text) × (more : List Text) × (o ≡ some (agent ∷ more)))
agent_cases none = inl (inl refl)
agent_cases (some []) = inl (inr refl)
agent_cases (some (a ∷ more)) = inr (a, more, refl)

pub IsExplorer-iff :
    (is_visible : Text → Bool) (req : Request)
    → (is_ie is_visible req ≡ true) ↔ IsExplorer is_visible req
unfolding is_ie
IsExplorer-iff is_visible req = (
  (λ h. elim (agent_cases (lookup (text "user-agent") req.headers)) [
    | inl (inl e) ↦ absurd (let k : false ≡ true = rw (e, is_ie) at h in ground arith)
    | inl (inr e) ↦ absurd (let k : false ≡ true = rw (e, is_ie) at h in ground arith)
    | inr (agent, more, e) ↦
        let (v, c) = explorer_of is_visible agent (rw (e, is_ie) at h) in (agent, more, e, v, c)
  ]),
  (λ (agent, more, e, v, c). rw (e, is_ie, v) (names_explorer agent c)),
)
