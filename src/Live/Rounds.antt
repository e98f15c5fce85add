-- ===== src/Live/Rounds.antt =====
-- When a node resolves again, _should_run_now and maybe_run_live_resolve of
-- gfc-platform/node-agent/node_agent/live_resolve.py.
use sip_proxy.Common.Dict.{Dict}
use sip_proxy.Live.Catalog.{Task, Catalog}
use sip_proxy.Live.Reports.{Report}
use sip_proxy.Live.Resolver.{ResolverState, set_item}

-- The state in which the rest of the tasks runs.
abbrev noted : (Task → Report) → Task → ResolverState → ResolverState
noted resolve t state = record state {
  last_task_epochs = set_item t.line_id t.catalog_epoch state.last_task_epochs;
  line_cache = set_item t.line_id (resolve t) state.line_cache;
}
