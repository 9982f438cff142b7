-- ===== src/Platform/Committed.antt =====
-- A session that a command has left is found as it is, once the repository has committed it.
use kota.Base.{◌≡◌, refl, sym, subst, ◌∙◌, List, ok, ==_iff}
use kota.Primitives.{PsbtSessionId}
use kota.Session.Types.{PsbtSession}
use kota.Session.Commands.{Command, execute}
use kota.Platform.Database.{JobConfig}
use kota.Platform.Repos.{find_session, write_session, found_session}
use kota.Platform.Genuine.{IsGenuine, found_of_rows, IsGenuine-hydrates, IsGenuine-execute}
use kota.Platform.Consistent.{IsConsistent, found_session-IsGenuine}
use kota.Platform.Jobs.Types.{Services}

module _ {Db : Type 0} (sv : Services Db) (db db' : Db) (jobs : List JobConfig) where
  committed_rows :
      (id : PsbtSessionId) (s : PsbtSession)
      → s.id ≡ id
      → sv.database.commit db (write_session s jobs) ≡ ok db'
      → sv.database.session_events db' id ≡ s.events
  committed_rows id s e h =
      sv.database.session_events-commit db db' (write_session s jobs) id h
      ∙ rw ((==_iff id s.id).1 (sym e)) refl

  -- A committed genuine session is found.
  pub committed_found :
      (id : PsbtSessionId) (s : PsbtSession)
      → IsGenuine sv.session_guard id s
      → sv.database.commit db (write_session s jobs) ≡ ok db'
      → find_session sv.database db' id ≡ ok s
  unfolding find_session
  committed_found id s g h =
      subst (λ rows. found_session id rows ≡ ok s) (sym (committed_rows id s g.same_id h))
        (found_of_rows id s s.events (IsGenuine-hydrates sv.session_guard id s g))

  -- What a command made of a stored session is found, once it is committed.
  pub committed_command :
      (o : Command) (id : PsbtSessionId) (s t : PsbtSession)
      → IsConsistent sv db
      → find_session sv.database db id ≡ ok s
      → execute sv.session_guard o s ≡ t
      → sv.database.commit db (write_session t jobs) ≡ ok db'
      → find_session sv.database db' id ≡ ok t
  committed_command o id s t c f e h =
      committed_found id t
        (subst (IsGenuine sv.session_guard id) e
          (IsGenuine-execute sv.session_guard id s (found_session-IsGenuine sv db id s c f) o))
        h
