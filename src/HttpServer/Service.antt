-- ===== src/HttpServer/Service.antt =====
-- The handlers over the vector client, and while the service is down.
use semantic_search_engine.Base.{List, Option, Bytes}
use semantic_search_engine.FileSystem.{FileSystem}
use semantic_search_engine.HttpServer.Float.{Float}
use semantic_search_engine.HttpServer.Routes.{VectorCall, VectorSearch}
use semantic_search_engine.Text.Integer.{ℤ}
use semantic_search_engine.VectorClient.Client.{Dial, vector_client}

module _ (float : Float) (stof : Bytes → Option float.Carrier) (port : ℤ)
    (dial : List VectorCall → Dial) where
  -- The searches of the handlers, with the default counts of `Search` and `Ask`; what the system
  -- answers may depend on the changes that the service was told.
  unfoldable pub service : VectorSearch float
  unfolding vector_client
  service = record {
    search = λ calls query. (vector_client stof port).search (dial calls) query 10;
    ask = λ calls question. (vector_client stof port).ask (dial calls) question 5;
  }
