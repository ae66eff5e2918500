-- ===== src/Signaler/Connections.antt =====
-- pkg/wrtcsgl/wrtcsgl.go: the table of open connections, and how a kick closes them.
pub mod Tables
pub mod Kicks
use weron.Prelude.{
  leb, if◌then◌else◌, length, lookup, insert, delete, String, Bool, true, false, Option, none, some,
  List, [], ◌∷◌,
}

-- A connection: whether its `closer` is closed.
pub record Connection : Type 0 where
  pub is_closed : Bool

abbrev pub Connections : Type 0
Connections = List (String × List (String × Connection))

-- `s.connections[community]`, nil if there is none.
abbrev pub in_community : String → Connections → List (String × Connection)
in_community community s = elim (lookup community s) [ none ↦ [] | some c ↦ c ]

unfoldable pub register : String → String → Connections → Connections
register community raddr s =
    insert community (insert raddr (record { is_closed = false }) (in_community community s)) s

-- `delete` on a nil map does nothing; a community with no connection left loses its entry.
unfoldable pub unregister : String → String → Connections → Connections
unregister community raddr s = elim (lookup community s) [
  | none ↦ delete community s
  | some c ↦
      let c' = delete raddr c in
      if leb (length c') 0 then delete community s else insert community c' s
]

-- `close(conn.closer)` in the loop over a community: `none` is the panic of closing it twice, which
-- nothing recovers.
unfoldable pub close_all : List (String × Connection) → Option (List (String × Connection))
close_all [] = some []
close_all ((raddr, c) ∷ cs) = elim (close_all cs) [
  | none ↦ none
  | some cs' ↦ if c.is_closed then none else some ((raddr, record { is_closed = true }) ∷ cs')
]

-- One round of the goroutine that receives kicks, where no session begins or ends meanwhile: the source
-- releases the lock before it goes through the connections of the community, from which a session that
-- ends deletes itself at the same time.
unfoldable pub kick : String → Connections → Option Connections
kick community s = elim (lookup community s) [
  | none ↦ some s
  | some c ↦ elim (close_all c) [ none ↦ none | some c' ↦ some (insert community c' s) ]
]
