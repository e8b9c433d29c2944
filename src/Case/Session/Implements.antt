-- ===== src/Case/Session/Implements.antt =====
-- Both halves for a part of a transaction: what it does under every pattern of faults, and that it
-- does it where there is none.
use xscope_hub.Prelude.{Outcome, ok}
use xscope_hub.Case.Session.{RepoError, M, Statement, ◌>>=◌, ◌>>◌, pure, lift, exec, or_rollback}
use xscope_hub.Case.Session.Refines.{
  bind, unchanged, Refines, Refines-exec, Refines-lift, Refines-pure, Refines-bind,
}
use xscope_hub.Case.Session.Total.{Runs, Runs-exec, Runs-lift, Runs-pure, Runs-bind}

abbrev pub Implements : {A : Type 0} → M A → Statement A → Type 0
Implements m s = Refines m s × Runs m s

pub Implements-exec : {A : Type 0} (s : Statement A) → Implements (or_rollback (exec s)) s
Implements-exec s = (Refines-exec s, Runs-exec s)

pub Implements-lift :
    {A : Type 0} (r : Outcome RepoError A) → Implements (or_rollback (lift r)) (unchanged r)
Implements-lift r = (Refines-lift r, Runs-lift r)

pub Implements-pure : {A : Type 0} (a : A) → Implements (pure a) (unchanged (ok a))
Implements-pure a = (Refines-pure a, Runs-pure a)

pub Implements-bind :
    {A B : Type 0} (m : M A) (f : A → M B) (s : Statement A) (g : A → Statement B)
    → Implements m s
    → ((a : A) → Implements (f a) (g a))
    → Implements (m >>= f) (bind s g)
Implements-bind m f s g first later =
    (Refines-bind m f s g first.0 (λ a. (later a).0), Runs-bind m f s g first.1 (λ a. (later a).1))

pub Implements-then :
    {A B : Type 0} (m : M A) (k : M B) (s : Statement A) (t : Statement B)
    → Implements m s
    → Implements k t
    → Implements (m >> k) (bind s (λ _. t))
Implements-then m k s t first later = Implements-bind m (λ _. k) s (λ _. t) first (λ _. later)
