-- ===== src/Session.antt =====
-- The builder of a Spark session, as the Spark jobs and the index builder use it.
use vector_catalog_service.Prelude.{String, List}

-- `SparkSession.builder` with its `appName` and each `config`, in order, before `getOrCreate`.
pub record SessionBuilder : Type 0 where
  pub app_name : String
  pub config : List (String × String)

-- The two settings of Delta Lake that all of them make.
abbrev pub extensions : String × String
extensions = ("spark.sql.extensions", "io.delta.sql.DeltaSparkSessionExtension")

abbrev pub catalog : String × String
catalog = ("spark.sql.catalog.spark_catalog", "org.apache.spark.sql.delta.catalog.DeltaCatalog")

abbrev pub packages : String × String
packages = ("spark.jars.packages", "io.delta:delta-spark_2.12:3.1.0")
