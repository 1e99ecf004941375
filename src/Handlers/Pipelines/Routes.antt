-- ===== src/Handlers/Pipelines/Routes.antt =====
-- ui/main.go: the routes to the pages of pipelines, and requests of users one after the other.
pub mod Present
pub mod Stored
pub mod Safe
use churro.Common.{List, [], ◌∷◌}
use churro.Handlers.{Request}
use churro.Handlers.Pages.{Wrapper}
use churro.Handlers.Pipelines.{
  PipelineWeb, PipelinePage, show_create_pipeline, create_pipeline_detail, pipeline_detail_handler,
  update_pipeline_detail, delete_pipelines, delete_pipeline_detail, pipeline_download_file,
}

pub data PipelineRoute : Type 0 where
  to_show_create : PipelineRoute
  to_create : PipelineRoute
  to_detail : PipelineRoute
  to_update : PipelineRoute
  to_delete_selected : PipelineRoute
  to_delete : PipelineRoute
  to_download : PipelineRoute

module _ {K : Type 0} (web : PipelineWeb K) where
  unfoldable pub visit : PipelineRoute → Wrapper → Request → PipelinePage web
  visit to_show_create u r = show_create_pipeline web u
  visit to_create u r = create_pipeline_detail web u r
  visit to_detail u r = pipeline_detail_handler web u r
  visit to_update u r = update_pipeline_detail web u r
  visit to_delete_selected u r = delete_pipelines web u r
  visit to_delete u r = delete_pipeline_detail web u r
  visit to_download u r = pipeline_download_file web u r

  -- The state after requests of users
  unfoldable pub visit_all : List (PipelineRoute × Wrapper × Request) → K → K
  unfolding visit
  visit_all [] s = s
  visit_all ((route, u, r) ∷ l) s = visit_all l (visit route u r s).1
