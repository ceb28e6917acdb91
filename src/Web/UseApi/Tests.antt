-- ===== src/Web/UseApi/Tests.antt =====
-- Two requests in flight: the answer to the first arrives last, and is shown.
use bagualu.Base.{ℕ, false, some, [], ◌∷◌, arith}
use bagualu.Web.UseApi.{
  Hook, Reach, mounted, reloaded, resolved, rejected, IsShown, Reach-IsShown, initial, reload,
  resolve, reject,
}

abbrev crossed : Hook ℕ
unfolding initial reload resolve reject
crossed = record {
  content = 1;
  loading = false;
  error = "500 Internal Server Error";
  in_flight = 0;
}

crossed-Reach : Reach 0 (1 ∷ 2 ∷ []) crossed
unfolding initial reload resolve reject
crossed-Reach =
    rejected "500 Internal Server Error"
      (resolved 1
        (resolved 2 (reloaded (some "/nodes") (reloaded (some "/nodes") (mounted (some "/nodes"))))
          (omega arith))
        (omega arith))
      (omega arith)

Reach-IsShown_example : IsShown 0 (1 ∷ 2 ∷ []) crossed
Reach-IsShown_example = Reach-IsShown crossed-Reach
