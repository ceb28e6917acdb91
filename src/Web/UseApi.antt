-- ===== src/Web/UseApi.antt =====
-- useApi of web/admin/src/main.tsx: the state that each page keeps of one GET request.
mod Tests
use bagualu.Base.{
  ℕ, ◌+◌, ◌-◌, ◌<◌, String, ◌≡◌, refl, ◌⊎◌, inl, Bool, true, false, Option, none, some, List, [],
  ◌∷◌, arith, ◌==◌, nat_eq, string_eq, if◌then◌else◌,
}

pub record Hook (T : Type 0) : Type 0 where
  pub content : T
  pub loading : Bool
  pub error : String
  -- the requests that were sent and have not been answered
  pub in_flight : ℕ

-- The test `!path`.
abbrev has_path : Option String → Bool
has_path none = false
has_path (some p) = if p == "" then false else true

module _ {T : Type 0} where
  pub initial : T → Hook T
  initial fallback = record { content = fallback; loading = true; error = ""; in_flight = 0 }

  pub reload : Option String → Hook T → Hook T
  reload path h =
      if has_path path
      then record h { error = ""; loading = true; in_flight = h.in_flight + 1 }
      else record h { error = ""; loading = false }

  -- .then(setData).finally(() => setLoading(false))
  pub resolve : T → Hook T → Hook T
  resolve value h = record h { content = value; loading = false; in_flight = h.in_flight - 1 }

  -- .catch((e) => setError(e.message)).finally(() => setLoading(false))
  pub reject : String → Hook T → Hook T
  reject reason h = record h { error = reason; loading = false; in_flight = h.in_flight - 1 }

-- The states that a mounted component can reach. `arrived` holds the values of the answers, the
-- last to arrive first: answers may come in another order than their requests.
pub data Reach {T : Type 0} (fallback : T) : List T → Hook T → Type 0 where
  mounted : (path : Option String) → Reach fallback [] (reload path (initial fallback))
  reloaded :
      {arrived : List T} {h : Hook T} (path : Option String)
      → Reach fallback arrived h
      → Reach fallback arrived (reload path h)
  resolved :
      {arrived : List T} {h : Hook T} (value : T)
      → Reach fallback arrived h
      → 0 < h.in_flight
      → Reach fallback (value ∷ arrived) (resolve value h)
  rejected :
      {arrived : List T} {h : Hook T} (reason : String)
      → Reach fallback arrived h
      → 0 < h.in_flight
      → Reach fallback arrived (reject reason h)

abbrev newest : {T : Type 0} → T → List T → T
newest fallback [] = fallback
newest fallback (value ∷ arrived) = value

pub record IsShown {T : Type 0} (fallback : T) (arrived : List T) (h : Hook T) : Type 0 where
  pub pending : (h.loading ≡ false) ⊎ (0 < h.in_flight)
  pub latest : h.content ≡ newest fallback arrived
  pub idle_error : (h.loading ≡ false) ⊎ (h.error ≡ "")

-- A spinner always waits for an answer that is still to come, and shows no error of an earlier
-- request; the shown content is that of the answer that arrived last, which a failure keeps, and
-- the fallback before the first.
pub Reach-IsShown :
    {T : Type 0} {fallback : T} {arrived : List T} {h : Hook T}
    → Reach fallback arrived h
    → IsShown fallback arrived h
unfolding initial reload resolve reject
Reach-IsShown (mounted path) = ground arith
Reach-IsShown (reloaded path r) = let s = Reach-IsShown r in ground arith
Reach-IsShown (resolved value r p) = record {
  pending = inl refl;
  latest = refl;
  idle_error = inl refl;
}
Reach-IsShown (rejected reason r p) = record {
  pending = inl refl;
  latest = (Reach-IsShown r).latest;
  idle_error = inl refl;
}
