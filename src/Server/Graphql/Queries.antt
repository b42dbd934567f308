-- ===== src/Server/Graphql/Queries.antt =====
-- The simple queries. ClickHouse is a parameter.
use perf_weave.Base.{ℕ, Option, none, some, List, [], ◌∷◌, map, min, is_empty, if◌then◌else◌}
use perf_weave.Base.Results.{Result, ok, ◌>>=◌}
use perf_weave.Base.Text.{Text, codes}
use perf_weave.Base.Text.Decimal.{to_string}
use perf_weave.Base.Text.Parts.{join, concat}
use perf_weave.Server.Graphql.Rows.{
  Node, StringEntry, Spike, CorrelatedEvent, TopKernelsInWindow, TopKernelRow, UtilRow, Kiw,
}
use perf_weave.Server.Graphql.Sql.{
  nodes_sql, strings_sql, spikes_sql, correlated_sql, top_kernels_sql,
}

-- `query(..).fetch_all()` and `fetch_optional()` for each type of row.
pub record Ch (Error : Type 0) : Type 0 where
  pub fetch_nodes : Text → Result Error (List Node)
  pub fetch_strings : Text → Result Error (List StringEntry)
  pub fetch_spikes : Text → Result Error (List Spike)
  pub fetch_correlated : Text → Result Error (List CorrelatedEvent)
  pub fetch_top_kernels : Text → Result Error (List TopKernelRow)
  pub fetch_text : Text → Result Error (Option Text)
  pub fetch_util : Text → Result Error (Option UtilRow)
  pub fetch_kiw : Text → Result Error (List Kiw)

abbrev pub top_kernel_of : TopKernelRow → TopKernelsInWindow
top_kernel_of r = record {
  name_id = r.name_id;
  name = r.name;
  total_duration_ns = r.total_duration_ns;
  launches = r.launches;
  mean_duration_ns = r.mean_duration_ns;
}

-- `limit.unwrap_or(3).min(32)`.
abbrev pub limit_of : Option ℕ → ℕ
limit_of none = 3
limit_of (some n) = min n 32

abbrev pub gpu_clause_of : Option ℕ → Text
gpu_clause_of none = []
gpu_clause_of (some g) = concat (codes " AND gpu_id = " ∷ to_string g ∷ [])

module _ {Error : Type 0} (ch : Ch Error) where
  unfoldable pub nodes : Result Error (List Node)
  nodes = ch.fetch_nodes nodes_sql

  -- No query runs for an empty list.
  unfoldable pub strings : List ℕ → Result Error (List StringEntry)
  strings ids =
      if is_empty ids then ok [] else ch.fetch_strings (strings_sql (join b',' (map to_string ids)))

  unfoldable pub spikes : ℕ → ℕ → Result Error (List Spike)
  spikes start_ns end_ns = ch.fetch_spikes (spikes_sql start_ns end_ns)

  unfoldable pub correlated : ℕ → Result Error (List CorrelatedEvent)
  correlated correlation_id = ch.fetch_correlated (correlated_sql correlation_id)

  unfoldable pub top_kernels_in_window :
      ℕ → ℕ → Option ℕ → Option ℕ → Result Error (List TopKernelsInWindow)
  top_kernels_in_window start_ns end_ns gpu_id limit =
      ch.fetch_top_kernels (top_kernels_sql start_ns end_ns (gpu_clause_of gpu_id) (limit_of limit))
      >>= (λ rows. ok (map top_kernel_of rows))
