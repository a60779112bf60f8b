-- ===== src/Frontend/Pages/NewDataSource/Categories.antt =====
-- The kinds of data sources that app/(app)/data-sources/new/page.tsx offers. The icons are not modelled.
use trust_vault.Prelude.{String, List, [], ◌∷◌, Text, text}

pub record SourceType : Type 0 where
  pub value : Text
  pub label : Text

pub record Category : Type 0 where
  pub label : Text
  pub types : List SourceType

unfoldable source_type : String → String → SourceType
unfolding text
source_type value label = record { value = text value; label = text label }

unfoldable category : String → List SourceType → Category
unfolding text
category label types = record { label = text label; types = types }

unfoldable pub data_source_categories : List Category
unfolding source_type category
data_source_categories =
    category "Relational Databases" (
      source_type "postgres" "PostgreSQL"
      ∷ source_type "mysql" "MySQL"
      ∷ source_type "mssql" "SQL Server"
      ∷ source_type "oracle" "Oracle"
      ∷ source_type "mariadb" "MariaDB"
      ∷ source_type "cockroachdb" "CockroachDB"
      ∷ [])
    ∷ category "Cloud Data Warehouses" (
        source_type "snowflake" "Snowflake"
        ∷ source_type "bigquery" "BigQuery"
        ∷ source_type "redshift" "Redshift"
        ∷ source_type "databricks" "Databricks"
        ∷ source_type "synapse" "Azure Synapse"
        ∷ source_type "clickhouse" "ClickHouse"
        ∷ [])
    ∷ category "Data Lakes & Object Storage" (
        source_type "s3" "Amazon S3"
        ∷ source_type "gcs" "Google Cloud Storage"
        ∷ source_type "azure_blob" "Azure Blob Storage"
        ∷ source_type "delta_lake" "Delta Lake"
        ∷ source_type "iceberg" "Apache Iceberg"
        ∷ source_type "hudi" "Apache Hudi"
        ∷ [])
    ∷ category "Streaming & Messaging" (
        source_type "kafka" "Apache Kafka"
        ∷ source_type "pulsar" "Apache Pulsar"
        ∷ source_type "kinesis" "AWS Kinesis"
        ∷ source_type "eventhub" "Azure Event Hub"
        ∷ source_type "rabbitmq" "RabbitMQ"
        ∷ source_type "nats" "NATS"
        ∷ [])
    ∷ category "NoSQL & Document Stores" (
        source_type "mongodb" "MongoDB"
        ∷ source_type "elasticsearch" "Elasticsearch"
        ∷ source_type "dynamodb" "DynamoDB"
        ∷ source_type "cassandra" "Cassandra"
        ∷ source_type "redis" "Redis"
        ∷ source_type "couchbase" "Couchbase"
        ∷ [])
    ∷ category "BI & Analytics Tools" (
        source_type "tableau" "Tableau"
        ∷ source_type "looker" "Looker"
        ∷ source_type "powerbi" "Power BI"
        ∷ source_type "metabase" "Metabase"
        ∷ source_type "superset" "Apache Superset"
        ∷ source_type "dbt" "dbt"
        ∷ [])
    ∷ category "Orchestration & ETL" (
        source_type "airflow" "Apache Airflow"
        ∷ source_type "spark" "Apache Spark"
        ∷ source_type "flink" "Apache Flink"
        ∷ source_type "glue" "AWS Glue"
        ∷ source_type "fivetran" "Fivetran"
        ∷ source_type "airbyte" "Airbyte"
        ∷ [])
    ∷ category "APIs & SaaS" (
        source_type "salesforce" "Salesforce"
        ∷ source_type "hubspot" "HubSpot"
        ∷ source_type "rest_api" "REST API"
        ∷ source_type "graphql" "GraphQL"
        ∷ source_type "sharepoint" "SharePoint"
        ∷ source_type "google_sheets" "Google Sheets"
        ∷ [])
    ∷ category "Files & Documents" (
        source_type "file" "File System"
        ∷ source_type "csv" "CSV / Excel"
        ∷ source_type "pdf" "PDF Documents"
        ∷ source_type "parquet" "Parquet"
        ∷ source_type "avro" "Avro"
        ∷ source_type "json" "JSON / NDJSON"
        ∷ [])
    ∷ []
