-- ===== src/View/Forms/KeySelector/Laws.antt =====
-- The key that is selected for an upload admits its owner.
use canonizr_hda.World.Actions.{World}
use canonizr_hda.Tables.TableName
