-- ===== src/Signaler/Close.antt =====
-- pkg/wrtcsgl/wrtcsgl.go: how the signaler closes.
pub mod Returned
use weron.Prelude.{Result, ok, err, String, Option, none, some, List, [], ◌∷◌}
use weron.Persister.{Error}
use weron.Signaler.{CommunitiesPersister}
use weron.Signaler.Connections.{Connection, Connections}

-- The errors of the broker and of the server that `Close` tells apart.
pub data CloseError : Type 0 where
  canceled redis_closed broken : CloseError

-- What the three calls at the end of `Close` return; `none` is nil.
pub record Closers : Type 0 where
  pub kicks : Option CloseError
  pub broker : Option CloseError
  pub server : Option CloseError

pub data CloseFailure : Type 0 where
  store_failed : Error → CloseFailure
  closer_failed : CloseError → CloseFailure

abbrev pub unless_canceled : Option CloseError → Option CloseError
unless_canceled none = none
unless_canceled (some canceled) = none
unless_canceled (some redis_closed) = some redis_closed
unless_canceled (some broken) = some broken

abbrev pub unless_closed : Option CloseError → Option CloseError
unless_closed none = none
unless_closed (some canceled) = none
unless_closed (some redis_closed) = none
unless_closed (some broken) = some broken

-- The first error that is not one of an end that is meant.
unfoldable pub close_rest : Closers → Option CloseFailure
close_rest r = elim (unless_canceled r.kicks) [
  | some e ↦ some (closer_failed e)
  | none ↦ elim (unless_closed r.broker) [
    | some e ↦ some (closer_failed e)
    | none ↦ elim (unless_canceled r.server) [ some e ↦ some (closer_failed e) | none ↦ none ]
  ]
]

module _ (db : CommunitiesPersister) where
  open db use {Store}

  -- One client for each connection of a community, up to the first error.
  unfoldable pub remove_each :
      String → List (String × Connection) → Store → Store × Result Error (Unit {0})
  remove_each community [] s = (s, ok tt)
  remove_each community (c ∷ cs) s =
      let (s', e) = db.remove_client_from_community community s in
      let rest = remove_each community cs s' in elim e [ err x ↦ (s', err x) | ok _ ↦ rest ]

  unfoldable pub remove_all : Connections → Store → Store × Result Error (Unit {0})
  unfolding remove_each
  remove_all [] s = (s, ok tt)
  remove_all ((community, cs) ∷ connections) s =
      let (s', e) = remove_each community cs s in
      let rest = remove_all connections s' in elim e [ err x ↦ (s', err x) | ok _ ↦ rest ]

  unfoldable pub close : Closers → Connections → Store → Store × Option CloseFailure
  unfolding remove_all close_rest
  close r connections s =
      let (s', e) = remove_all connections s in
      elim e [ err x ↦ (s', some (store_failed x)) | ok _ ↦ (s', close_rest r) ]
