-- ===== src/Graph/Plan/Wedge.antt =====
-- Gates, resumes and histories of a graph with an accepted plan.
use django_qraft.Prelude.{Bool, true, false}
use django_qraft.Graph.Rows.{Graph}
use django_qraft.Graph.Control.History.{Op, reject_node}

abbrev pub is_rejection : Op → Bool
is_rejection (reject_node accepted now key reason) = true
is_rejection _ = false
