-- ===== src/Engine/Publish.antt =====
-- internal/state/engine.go: BeginPublication, MarkPublished, Fail.
use sofa.Base.{String, Bool, not, Option, none, some, ◌&&◌, ◌||◌, ◌==◌, string_eq, if◌then◌else◌}
use sofa.Base.Int.{pos, int_eq, ltb_ℤ}
use sofa.State.Records.{Phase, Fence, Publication, Attempt}
use sofa.State.Same.{phase_eq, publication_eq}
use sofa.State.Valid.{publication_valid}
use sofa.Engine.Outcome.{Error, Operation, Edit, require}
use sofa.Engine.Ownership.{mutate_owned}

-- A publication with its pull request's number, URL and head cleared.
unfoldable pub intent_of : Publication → Publication
intent_of p = record p { pr_number = pos 0; pr_url = ""; head_sha = "" }

-- The attempt that `BeginPublication` writes, if its phase allows.
start_publishing : Publication → Attempt → Edit
start_publishing publication a =
    if not (a.phase == Phase.validating) && not (a.phase == Phase.publishing)
    then Edit.reject Error.invalid
    else Edit.write (record a { publication = some publication; phase = Phase.publishing })

-- The mutation of `BeginPublication`, by the publication that the attempt has.
begin_from : Option Publication → Publication → Attempt → Edit
unfolding start_publishing
begin_from none publication a = start_publishing publication a
begin_from (some old) publication a =
    if not (intent_of old == publication)
    then Edit.reject Error.invalid
    else if a.phase == Phase.draft
    then Edit.keep
    else start_publishing publication a

unfoldable pub begin_publication_edit : Publication → Attempt → Edit
unfolding begin_from
begin_publication_edit publication a = begin_from a.publication publication a

-- `BeginPublication`
unfoldable pub begin_publication : Fence → Publication → Operation (Unit {0})
begin_publication f publication =
    require (publication_valid publication && publication.pr_number == pos 0) Error.invalid
      (mutate_owned f (begin_publication_edit publication))

-- The mutation of `MarkPublished`, by the publication that the attempt has.
mark_from : Option Publication → Publication → Attempt → Edit
mark_from none publication a = Edit.reject Error.invalid
mark_from (some old) publication a =
    let p = record publication {
      pr_number = old.pr_number;
      pr_url = old.pr_url;
      head_sha = old.head_sha;
    } in
    if not (p == old)
    then Edit.reject Error.invalid
    else if a.phase == Phase.draft
    then (if old == publication then Edit.keep else Edit.reject Error.conflict)
    else if not (a.phase == Phase.publishing)
    then Edit.reject Error.invalid
    else Edit.write (record a { publication = some publication; phase = Phase.draft })

unfoldable pub mark_published_edit : Publication → Attempt → Edit
unfolding mark_from
mark_published_edit publication a = mark_from a.publication publication a

-- `MarkPublished`
unfoldable pub mark_published : Fence → Publication → Operation (Unit {0})
mark_published f publication =
    require (publication_valid publication && ltb_ℤ (pos 0) publication.pr_number) Error.invalid
      (mutate_owned f (mark_published_edit publication))

-- The failure classes that `Fail` takes.
unfoldable pub failure_class : String → Bool
failure_class kind =
    kind == "authentication"
    || kind == "quota"
    || kind == "infrastructure"
    || kind == "validation"
    || kind == "authority"
    || kind == "human-change"

-- The mutation of `Fail`.
unfoldable pub fail_edit : String → Attempt → Edit
fail_edit kind a =
    if a.phase == Phase.draft
    then Edit.reject Error.claimed
    else Edit.write (record a {
      failure = kind;
      phase = if kind == "quota" || kind == "infrastructure" then Phase.deferred else Phase.blocked;
    })

-- `Fail`
unfoldable pub fail : Fence → String → Operation (Unit {0})
fail f kind = require (failure_class kind) Error.invalid (mutate_owned f (fail_edit kind))
