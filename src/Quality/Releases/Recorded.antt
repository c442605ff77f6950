-- ===== src/Quality/Releases/Recorded.antt =====
-- What `create_release` records, and what it leaves alone where it raises.
use smart_screen_agent.Prelude.{ℕ, suc, ◌≡◌, some, Result, ok, raised}
use smart_screen_agent.Quality.Releases.{Db, Given, ReleaseRequest, QualityRelease, ReleaseError}
use smart_screen_agent.Quality.Releases.Creation.{Meets, conflict}
use smart_screen_agent.Quality.Releases.Written.{Created}

-- A release that is created, or an error and nothing.
abbrev pub Recorded :
    Given → ReleaseRequest → ℕ → ℕ → Db → Result ReleaseError QualityRelease × Db → Type 0
Recorded g request actor now before (raised e, after) = after ≡ before
Recorded g request actor now before (ok r, after) = Created g request actor now before r after

-- After some attempts that ended in a conflict and changed nothing, others have made `db` to `after`,
-- and this many attempts are left.
pub data Waited (m : Meets) : ℕ → Db → ℕ → Db → Type 0 where
  ready : {n : ℕ} {db : Db} → Waited m n db n db
  conflicted :
      {n k : ℕ} {db after : Db}
      → m.fails n ≡ some conflict
      → Waited m n (m.meanwhile n db) k after
      → Waited m (suc n) db k after

-- What a run of attempts comes to.
pub record Attempted (g : Given) (m : Meets) (request : ReleaseRequest) (actor now n : ℕ) (db : Db)
    (result : Result ReleaseError QualityRelease × Db) : Type 0 where
  pub left : ℕ
  pub before : Db
  pub waited : Waited m n db left before
  pub recorded : Recorded g request actor now before result
