-- ===== src/Producer/Actions.antt =====
-- The actions of the reader loop of src/main.cpp as each of its partners sees them.
use osmpgsqlimport.Prelude.{ℕ, ◌≡◌, refl, ap, List, [], ◌∷◌, ◌++◌, Option, none, some}
use osmpgsqlimport.Pbf.{OsmEntry}
use osmpgsqlimport.Producer.{Action}

-- The entries that go to the way threads, and those that go to each node thread, in order.
unfoldable pub way_pushes : List Action → List OsmEntry
way_pushes [] = []
way_pushes (Action.to_way_queue e ∷ more) = e ∷ way_pushes more
way_pushes (_ ∷ more) = way_pushes more

unfoldable pub node_pushes : List Action → List (ℕ × OsmEntry)
node_pushes [] = []
node_pushes (Action.to_node_queue i e ∷ more) = (i, e) ∷ node_pushes more
node_pushes (_ ∷ more) = node_pushes more

-- What the offset file holds after some actions.
unfoldable pub offset_after : Option ℕ → List Action → Option ℕ
offset_after o [] = o
offset_after o (Action.save_offset n ∷ more) = offset_after (some n) more
offset_after o (_ ∷ more) = offset_after o more

-- The stages of an import: the node queues are filled, then closed, then the way queue is fed.
pub data Stage : Type 0 where
  filling closing feeding : Stage

-- `none` where an action is not allowed.
unfoldable pub stage_after : Stage → List Action → Option Stage
stage_after s [] = some s
stage_after Stage.filling (Action.to_node_queue i e ∷ more) = stage_after Stage.filling more
stage_after Stage.filling (Action.end_node_queues ∷ more) = stage_after Stage.closing more
stage_after Stage.closing (Action.save_offset o ∷ more) = stage_after Stage.closing more
stage_after Stage.closing (Action.await_merge ∷ more) = stage_after Stage.feeding more
stage_after Stage.feeding (Action.save_relations_offset o ∷ more) = stage_after Stage.feeding more
stage_after Stage.feeding (Action.to_way_queue e ∷ more) = stage_after Stage.feeding more
stage_after _ (_ ∷ more) = none

pub way_pushes-append :
    (xs ys : List Action) → way_pushes (xs ++ ys) ≡ way_pushes xs ++ way_pushes ys
unfolding way_pushes
way_pushes-append [] ys = refl
way_pushes-append (Action.to_way_queue e ∷ xs) ys = ap (◌∷◌ e) (way_pushes-append xs ys)
way_pushes-append (_ ∷ xs) ys = way_pushes-append xs ys

pub node_pushes-append :
    (xs ys : List Action) → node_pushes (xs ++ ys) ≡ node_pushes xs ++ node_pushes ys
unfolding node_pushes
node_pushes-append [] ys = refl
node_pushes-append (Action.to_node_queue i e ∷ xs) ys = ap (◌∷◌ (i, e)) (node_pushes-append xs ys)
node_pushes-append (_ ∷ xs) ys = node_pushes-append xs ys

pub offset_after-append :
    (o : Option ℕ) (xs ys : List Action)
    → offset_after o (xs ++ ys) ≡ offset_after (offset_after o xs) ys
unfolding offset_after
offset_after-append o [] ys = refl
offset_after-append o (Action.save_offset n ∷ xs) ys = offset_after-append (some n) xs ys
offset_after-append o (_ ∷ xs) ys = offset_after-append o xs ys

pub stage_after-append :
    (s t : Stage) (xs ys : List Action)
    → stage_after s xs ≡ some t
    → stage_after s (xs ++ ys) ≡ stage_after t ys
unfolding stage_after
stage_after-append s t [] ys h = cc
stage_after-append Stage.filling t (Action.to_node_queue i e ∷ xs) ys h =
    stage_after-append Stage.filling t xs ys h
stage_after-append Stage.filling t (Action.end_node_queues ∷ xs) ys h =
    stage_after-append Stage.closing t xs ys h
stage_after-append Stage.closing t (Action.save_offset o ∷ xs) ys h =
    stage_after-append Stage.closing t xs ys h
stage_after-append Stage.closing t (Action.await_merge ∷ xs) ys h =
    stage_after-append Stage.feeding t xs ys h
stage_after-append Stage.feeding t (Action.save_relations_offset o ∷ xs) ys h =
    stage_after-append Stage.feeding t xs ys h
stage_after-append Stage.feeding t (Action.to_way_queue e ∷ xs) ys h =
    stage_after-append Stage.feeding t xs ys h
stage_after-append _ t (_ ∷ xs) ys h = cc h
