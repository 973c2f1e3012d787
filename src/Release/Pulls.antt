-- ===== src/Release/Pulls.antt =====
-- internal/github/lifecycle.go: what the client observes of a pull request and of a commit.
use sofa.Base.{String, Bool}
use sofa.Base.Int.{ℤ}
use sofa.State.Clock.{Time}

-- `PullSnapshot`
pub record PullSnapshot : Type 0 where
  pub number : ℤ
  pub url : String
  pub state : String
  pub draft : Bool
  pub merged : Bool
  pub merge_commit_sha : String
  pub merged_at : Time
  pub head_sha : String
  pub head_ref : String
  pub head_repository : String
  pub base_sha : String
  pub base_ref : String
  pub base_repository : String
  pub updated_at : Time

-- `CommitCheck`
pub record CommitCheck : Type 0 where
  pub name : String
  pub state : String
  pub app_id : ℤ
  pub updated_at : Time
  pub source_id : ℤ
