-- ===== src/Core/Router/Fallback.antt =====
-- The heuristic fallback of crates/pktflow-core/src/router.rs picks the best score that parses, the
-- earliest registration on ties.
use pktflow.Prelude.{
  ℕ, zero, suc, ◌+◌, ◌≤◌, ◌<◌, ◌≡◌, refl, ap, ◌∙◌, List, [], ◌∷◌, false, Option, none, some, length,
  get_elem?, arith, Option-cases, inl, inr, ltb, ltb→lt, ◌⊎◌, Bool-cases, if◌then◌else◌,
}
use pktflow.Core.Packet.{ProtocolName}
use pktflow.Core.Plugin.{Plugin, ParseCtx, ParsedLayer}
use pktflow.Core.Engine.{Engine}
use pktflow.Core.Router.{
  try_parse, score_fallback_pool, above_floor, select, best_from, best_index, remove_at,
  heuristic_fallback,
}

abbrev Found : Type 0
Found = Option (ProtocolName × ParsedLayer)

-- The score of a candidate that parses, with what it parsed.
abbrev pub Win : Type 0
Win = ℕ × ProtocolName × ParsedLayer

-- Of two candidates in order the second wins only by a higher score.
abbrev pub better : Win → Option Win → Win
better w none = w
better (s, x, p) (some (t, y, q)) = if ltb s t then (t, y, q) else (s, x, p)

abbrev pub unscored : Option Win → Found
unscored none = none
unscored (some (s, name, parsed)) = some (name, parsed)

length-remove_at :
    (cs : List (ℕ × Plugin)) (i : ℕ) (c : ℕ × Plugin)
    → get_elem? cs i ≡ some c
    → length cs ≡ suc (length (remove_at i cs))
length-remove_at [] i c g = cc
length-remove_at (d ∷ cs) zero c g = refl
length-remove_at (d ∷ cs) (suc i) c g = ap suc (length-remove_at cs i c g)

module _ (bytes : List ℕ) (ctx : ParseCtx) where
  -- The specification: among the candidates that parse, the first of the highest score.
  pub best : List (ℕ × Plugin) → Option Win
  best [] = none
  best ((s, p) ∷ cs) = elim (try_parse p bytes ctx) [
    | none ↦ best cs
    | some parsed ↦ some (better (s, p.name, parsed) (best cs))
  ]

  abbrev AllLe : ℕ → List (ℕ × Plugin) → Type 0
  AllLe m [] = Unit {0}
  AllLe m ((s, p) ∷ cs) = (s ≤ m) × AllLe m cs

  abbrev Bounded : ℕ → Option Win → Type 0
  Bounded m none = Unit {0}
  Bounded m (some (s, x, p)) = s ≤ m

  best-Bounded : (m : ℕ) (cs : List (ℕ × Plugin)) → AllLe m cs → Bounded m (best cs)
  unfolding best
  best-Bounded m [] h = tt
  best-Bounded m ((s, p) ∷ cs) h = ground (arith, best-Bounded m cs h.1)

  -- A candidate that scores more than those before it, and no less than those behind it.
  abbrev First : ℕ → ℕ → List (ℕ × Plugin) → Type 0
  First m i [] = Unit {0}
  First m zero ((s, p) ∷ cs) = AllLe m cs
  First m (suc i) ((s, p) ∷ cs) = (s < m) × First m i cs

  best-First :
      (m i : ℕ) (cs : List (ℕ × Plugin)) (p : Plugin) (parsed : ParsedLayer)
      → get_elem? cs i ≡ some (m, p)
      → First m i cs
      → try_parse p bytes ctx ≡ some parsed
      → best cs ≡ some (m, p.name, parsed)
  unfolding best
  best-First m i [] p parsed g f t = cc
  best-First m zero ((s, q) ∷ cs) p parsed g f t = ground (arith, best-Bounded m cs f)
  best-First m (suc i) ((s, q) ∷ cs) p parsed g f t =
      ground (arith, best-First m i cs p parsed g f.1 t)

  best-remove_at :
      (i s : ℕ) (cs : List (ℕ × Plugin)) (p : Plugin)
      → get_elem? cs i ≡ some (s, p)
      → try_parse p bytes ctx ≡ none
      → best (remove_at i cs) ≡ best cs
  unfolding best
  best-remove_at i s [] p g t = cc
  best-remove_at zero s ((r, q) ∷ cs) p g t = ground arith
  best-remove_at (suc i) s ((r, q) ∷ cs) p g t = ground (arith, best-remove_at i s cs p g t)

  -- Where the scan ends: at the best of before, or at a first maximum of what it went over.
  abbrev Ends : ℕ → ℕ → ℕ → ℕ → List (ℕ × Plugin) → Type 0
  Ends i k m r cs =
      ((r ≡ k) × AllLe m cs)
      ⊎ ((j : ℕ) × (m' : ℕ) × (p : Plugin) × (r ≡ i + j)
          × (get_elem? cs j ≡ some (m', p))
          × First m' j cs
          × (m < m'))

  best_from-Ends : (i k m : ℕ) (cs : List (ℕ × Plugin)) → Ends i k m (best_from i k m cs) cs
  unfolding best_from
  best_from-Ends i k m [] = inl (refl, tt)
  best_from-Ends i k m ((s, q) ∷ cs) = elim (Bool-cases (ltb m s)) [
    | inl up ↦ rw up (elim (best_from-Ends (i + 1) i s cs) [
      | inl (e, a) ↦ inr (0, s, q, omega arith, refl, a, ltb→lt m s up)
      | inr (j, m', p, e, g, f, h) ↦
          let l = ltb→lt m s up in inr (suc j, m', p, omega arith, g, (h, f), omega arith)
    ])
    | inr down ↦ rw down (elim (best_from-Ends (i + 1) k m cs) [
      | inl (e, a) ↦ inl (e, (ground arith, a))
      | inr (j, m', p, e, g, f, h) ↦ inr (suc j, m', p, omega arith, g, (ground arith, f), h)
    ])
  ]

  best_index-First :
      (s : ℕ) (q : Plugin) (cs : List (ℕ × Plugin))
      → let k = best_index ((s, q) ∷ cs) in
        (m : ℕ) × (p : Plugin) × (get_elem? ((s, q) ∷ cs) k ≡ some (m, p)) × First m k ((s, q) ∷ cs)
  unfolding best_index best_from
  best_index-First s q cs =
      let t : ltb s s ≡ false = ground arith in
      rw t (elim (best_from-Ends 1 0 s cs) [
        | inl (e, a) ↦ rw e (s, q, refl, a)
        | inr (j, m', p, e, g, f, h) ↦
            let e' : best_from 1 0 s cs ≡ suc j = omega arith in rw e' (m', p, g, (h, f))
      ])

  -- One turn of the loop.
  select_step :
      (f : ℕ) (cs : List (ℕ × Plugin)) (m : ℕ) (p : Plugin)
      → get_elem? cs (best_index cs) ≡ some (m, p)
      → First m (best_index cs) cs
      → select f (remove_at (best_index cs) cs) bytes ctx
        ≡ unscored (best (remove_at (best_index cs) cs))
      → select (suc f) cs bytes ctx ≡ unscored (best cs)
  unfolding select
  select_step f cs m p g first rest = elim (Option-cases (try_parse p bytes ctx)) [
    | inl miss ↦
        rw (g, miss, select) (rest ∙ ap unscored (best-remove_at (best_index cs) m cs p g miss))
    | inr (parsed, hit) ↦
        rw (g, hit, select) (rw (best-First m (best_index cs) cs p parsed g first hit))
  ]

  select-best :
      (f : ℕ) (cs : List (ℕ × Plugin)) → length cs ≤ f → select f cs bytes ctx ≡ unscored (best cs)
  select-best zero [] h = unfold select best in refl
  select-best zero (c ∷ cs) h = absurd (omega arith)
  select-best (suc f) [] h = unfold select best in refl
  select-best (suc f) ((s, q) ∷ cs) h =
      let (m, p, g, first) = best_index-First s q cs in
      let k = best_index ((s, q) ∷ cs) in
      select_step f ((s, q) ∷ cs) m p g first (
        select-best f (remove_at k ((s, q) ∷ cs))
          (omega (arith, length-remove_at ((s, q) ∷ cs) k (m, p) g)))

-- The fallback returns the specification's choice: of the candidates over the floor whose parse
-- succeeds within the input, the first in registration order that has the highest score; it returns
-- nothing exactly when none parses. The loop never stops early for want of fuel.
pub heuristic_fallback-best :
    (e : Engine) (bytes : List ℕ) (ctx : ParseCtx)
    → heuristic_fallback e bytes ctx
      ≡ unscored (best bytes ctx (above_floor (score_fallback_pool e bytes ctx)))
unfolding heuristic_fallback
heuristic_fallback-best e bytes ctx =
    select-best bytes ctx _ (above_floor (score_fallback_pool e bytes ctx)) (omega arith)
