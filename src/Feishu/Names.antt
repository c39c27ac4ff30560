-- ===== src/Feishu/Names.antt =====
-- adapters/feishu/src/task-bug-writeback.ts: the names of the tables and of their columns.
use assistant_context_router.Prelude.{String, List, [], ◌∷◌}
use assistant_context_router.Feishu.Texts.{Kind}

-- The names of the columns that the two tables share.
pub record SharedNames : Type 0 where
  pub status : String
  pub current_step : String
  pub step_result : String
  pub next_action : String
  pub last_event_at : String
  pub acceptance_mode : String
  pub completion_notify_mode : String
  pub started_at : String

pub record TaskNames : Type 0 where
  pub shared : SharedNames
  pub execution_summary : String

pub record BugNames : Type 0 where
  pub shared : SharedNames
  pub fix_method : String
  pub fix_result : String

-- The adapter's configuration, its defaults filled in.
pub record Names : Type 0 where
  pub tasks : String
  pub bugs : String
  pub task : TaskNames
  pub bug : BugNames

abbrev pub default_shared_names : SharedNames
default_shared_names = record {
  status = "状态";
  current_step = "current_step";
  step_result = "step_result";
  next_action = "next_action";
  last_event_at = "last_event_at";
  acceptance_mode = "ACR验收模式";
  completion_notify_mode = "ACR完成提醒";
  started_at = "ACR开始执行时间";
}

abbrev pub default_names : Names
default_names = record {
  tasks = "Tasks";
  bugs = "Bugs";
  task = record { shared = default_shared_names; execution_summary = "执行摘要" };
  bug = record { shared = default_shared_names; fix_method = "修复方式"; fix_result = "修复结果" };
}

abbrev pub shared_names : Names → Kind → SharedNames
shared_names names Kind.task = names.task.shared
shared_names names Kind.bug = names.bug.shared

abbrev required_shared : SharedNames → List String → List String
required_shared n more =
    n.status ∷ n.current_step ∷ n.step_result ∷ n.next_action ∷ n.last_event_at ∷ n.acceptance_mode
    ∷ n.completion_notify_mode ∷ n.started_at ∷ more

-- `TASK_REQUIRED_FIELDS.map((key) => taskFieldNames[key])`
abbrev pub required_task_fields : TaskNames → List String
required_task_fields n = required_shared n.shared (n.execution_summary ∷ [])

abbrev pub required_bug_fields : BugNames → List String
required_bug_fields n = required_shared n.shared (n.fix_method ∷ n.fix_result ∷ [])
