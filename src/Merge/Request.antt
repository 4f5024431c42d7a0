-- ===== src/Merge/Request.antt =====
-- `merge_tables` and `MergeRequest` of merge/mod.rs: a merge with the base that was chosen.
use carryctx.Base.{Option, none, some, Result, ok, err}
use carryctx.Merge.{External, MergeOptions}
use carryctx.Merge.Index.{MergeError, base_required_missing}
use carryctx.Merge.Tombstones.{TableSet}
use carryctx.Merge.Dag.{BaseSource, no_base, BaseResolution, resolved, degraded, required_missing}
use carryctx.Merge.Report.{MergeReport}
use carryctx.Merge.Engine.{merge_tables_with_source}

unfoldable pub merge_tables :
    External → Option TableSet → TableSet → TableSet → MergeOptions → Result MergeError MergeReport
unfolding merge_tables_with_source
merge_tables ext base ours theirs options =
    merge_tables_with_source ext options base ours theirs none

pub record MergeRequest : Type 0 where
  pub base : Option TableSet
  pub base_source : BaseSource
  pub ours : TableSet
  pub theirs : TableSet
  pub options : MergeOptions

unfoldable pub from_resolution :
    BaseResolution → TableSet → TableSet → MergeOptions → Result MergeError MergeRequest
from_resolution (resolved base source) ours theirs options = ok (record {
  base = some base;
  base_source = source;
  ours = ours;
  theirs = theirs;
  options = options;
})
from_resolution degraded ours theirs options =
    ok (record {
      base = none;
      base_source = no_base;
      ours = ours;
      theirs = theirs;
      options = options;
    })
from_resolution required_missing ours theirs options = err base_required_missing

unfoldable pub run : External → MergeRequest → Result MergeError MergeReport
unfolding merge_tables_with_source
run ext request =
    merge_tables_with_source ext request.options request.base request.ours request.theirs
      (some request.base_source)
