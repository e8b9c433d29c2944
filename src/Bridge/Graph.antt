-- ===== src/Bridge/Graph.antt =====
-- observe-bridge/internal/analytics/graph/graph.go: the statements that it sends to Apache AGE, with
-- their arguments. The database is a parameter.
use xscope_hub.Prelude.{Bytes, codes, List, [], ◌∷◌, ◌++◌, Outcome, ℤ}
use xscope_hub.Prelude.Print.{format_int}

pub record Database (Rows : Type 0) : Type 0 where
  pub exec : Bytes → List Bytes → Outcome Bytes (Unit {0})
  pub query : Bytes → List Bytes → Outcome Bytes Rows

pub record Dao (Rows : Type 0) : Type 0 where
  pub db : Database Rows
  pub graph_name : Bytes

abbrev pub call_edge_query : Bytes → Bytes
call_edge_query graph_name =
    codes "SELECT * FROM cypher('"
    ++ graph_name
    ++ codes
        "', $$ MERGE (a:Service {name: $1}) MERGE (b:Service {name: $2}) MERGE (a)-[:CALLS]->(b) $$) AS (a agtype, b agtype)"

abbrev pub dependencies_query : Bytes → ℤ → Bytes
dependencies_query graph_name k =
    codes "SELECT * FROM cypher('"
    ++ graph_name
    ++ codes "', $$ MATCH p = (s:Service {name: $1})-[:CALLS*1.."
    ++ format_int k
    ++ codes "]->(t:Service) RETURN p $$) AS (p agtype)"

module _ {Rows : Type 0} (dao : Dao Rows) where
  -- `CreateCallEdge`
  unfoldable pub create_call_edge : Bytes → Bytes → Outcome Bytes (Unit {0})
  create_call_edge from to = dao.db.exec (call_edge_query dao.graph_name) (from ∷ to ∷ [])

  -- `ServiceDependencies`
  unfoldable pub service_dependencies : Bytes → ℤ → Outcome Bytes Rows
  unfolding format_int
  service_dependencies svc k = dao.db.query (dependencies_query dao.graph_name k) (svc ∷ [])
