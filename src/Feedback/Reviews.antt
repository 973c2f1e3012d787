-- ===== src/Feedback/Reviews.antt =====
-- internal/review/review.go: FeedbackText, and the reviews that internal/github observes.
-- Parameters: sort.Slice by identifier, the JSON encoding of a review's text with its comments.
use sofa.Base.{
  String, Bool, true, false, not, Option, none, some, List, [], ◌∷◌, ◌&&◌, ◌||◌, ◌==◌, string_eq,
  ltb, if◌then◌else◌,
}
use sofa.Base.Int.{ℤ, pos, int_eq, ltb_ℤ}
use sofa.Base.Text.{byte_len}
use sofa.State.Clock.{Time}

-- `PullReviewComment`
pub record PullReviewComment : Type 0 where
  pub id : ℤ
  pub review_id : ℤ
  pub user_id : String
  pub commit_sha : String
  pub path : String
  pub original_line : Option ℤ
  pub body : String

-- `PullReview`
pub record PullReview : Type 0 where
  pub id : ℤ
  pub user_id : String
  pub state : String
  pub commit_sha : String
  pub body : String
  pub submitted_at : Time
  pub comments : List PullReviewComment

-- The comment belongs to the review.
unfoldable pub comment_of : PullReview → PullReviewComment → Bool
comment_of r c = not (
    ltb_ℤ c.id (pos 1)
    || not (c.review_id == r.id)
    || not (c.user_id == r.user_id)
    || not (c.commit_sha == r.commit_sha)
    || (c.path == ""))

abbrev pub same_id : Option ℤ → ℤ → Bool
same_id none id = false
same_id (some before) id = before == id

-- The loop over the sorted comments, after the identifier before.
unfoldable pub comments_valid : PullReview → Option ℤ → List PullReviewComment → Bool
unfolding comment_of
comments_valid r before [] = true
comments_valid r before (c ∷ comments) =
    not (not (comment_of r c) || same_id before c.id) && comments_valid r (some c.id) comments

module _ (sorted : List PullReviewComment → List PullReviewComment)
    (encode : String → List PullReviewComment → Option String) where
  -- The encoding, within its bound.
  unfoldable pub bounded_text : Option String → Option String
  bounded_text none = none
  bounded_text (some text) = if ltb 65536 (byte_len text) then none else some text

  -- `FeedbackText` of a review with comments.
  unfoldable pub inline_text : PullReview → List PullReviewComment → Option String
  unfolding comments_valid bounded_text
  inline_text r comments =
      if not (comments_valid r none comments) then none else bounded_text (encode r.body comments)

  -- `FeedbackText` within the bound of the body, by the comments.
  unfoldable pub text_of : PullReview → List PullReviewComment → Option String
  unfolding inline_text
  text_of r [] = some r.body
  text_of r (c ∷ comments) = inline_text r (sorted (c ∷ comments))

  -- `FeedbackText`; `none` is its error.
  unfoldable pub feedback_text : PullReview → Option String
  unfolding text_of
  feedback_text r = if ltb 65536 (byte_len r.body) then none else text_of r r.comments
