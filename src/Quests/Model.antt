-- ===== src/Quests/Model.antt =====
-- apps/server/internal/service/content.go: the draft of a quest book.
use m_pack_station.Base.{String, Bool, Option, List}
use m_pack_station.Base.Int.{ℤ}
use m_pack_station.Drafts.Json.{Number, Items}
use m_pack_station.Drafts.Payload.{Severity}

pub record QuestBookMeta : Type 0 where
  pub title : String
  pub icon : String
  pub progression_mode : String

pub record QuestChapter : Type 0 where
  pub id : String
  pub title : String
  pub description : String
  pub cover_color : String
  pub position : ℤ
  pub icon : String

-- The fields of a node that the column `meta` keeps.
pub record NodeMeta : Type 0 where
  pub subtitle : String
  pub shape : String
  pub size : Number
  pub is_optional : Bool
  pub invisible : Bool
  pub dependency_requirement : String
  pub min_required_dependencies : ℤ
  pub tasks : Items

pub record QuestNode : Type 0 where
  pub id : String
  pub chapter_id : String
  pub title : String
  pub description : String
  pub icon : String
  pub x : Number
  pub y : Number
  pub prerequisites : Items
  pub rewards : Items
  pub mod_refs : Items
  pub position : ℤ
  pub meta : NodeMeta

pub record QuestEdge : Type 0 where
  pub id : String
  pub from_node_id : String
  pub to_node_id : String

pub record QuestDraft : Type 0 where
  pub book : Option QuestBookMeta
  pub chapters : List QuestChapter
  pub nodes : List QuestNode
  pub edges : List QuestEdge

pub data QuestCode : Type 0 where
  duplicate_id duplicate_position invalid_position missing_chapter missing_node : QuestCode
  self_edge duplicate_edge cycle orphan_node invalid_reward : QuestCode
  invalid_dependency_requirement invalid_min_required_dependencies : QuestCode
  cross_pack_reference missing_mod_reference : QuestCode

-- A ValidationIssue of a quest; each code has one message for its path.
pub record QuestIssue : Type 0 where
  pub code : QuestCode
  pub severity : Severity
  pub path : String

-- The columns of `pack_mods` that a reference looks at.
pub record PackMod : Type 0 where
  pub id : String
  pub pack_id : String
  pub project_id : Option String
  pub removed : Bool
