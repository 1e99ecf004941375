-- ===== src/Handlers/Extensions.antt =====
-- internal/handlers/extension.go: the pages of extensions. They read the form, and send the extension to
-- the control service of the pipeline. The client of that service, the connection to it, the name of
-- the pipeline of an ID and the templates are parameters; logs and times are left out.
use churro.Common.{String, ◌==◌, if◌then◌else◌, ◌<>◌}
use churro.Common.Action.{Result, Action, give, of_result, ◌>>=◌}
use churro.Domain.{Extension, ExtractSource}
use churro.Cluster.{Codec}
use churro.Ctl.Functions.{encode_or_empty}
use churro.Handlers.{Request, var}
use churro.Handlers.Pages.{Reply, page, json_error, redirect, Wrapper, copy, or_else, say, field}

pub record ExtensionForm : Type 0 where
  pub user_email : String
  pub error_text : String
  pub pipeline_id : String
  pub pipeline_name : String
  pub extract_source_id : String
  pub extract_source_name : String
  pub extension_id : String
  pub extension_name : String
  pub extension_path : String

-- The calls of the control service that these pages make, over its states
pub record ExtensionClient (C : Type 0) : Type 0 where
  pub create_extension : String → Action C (Unit {0})
  pub update_extension : String → Action C (Unit {0})
  pub delete_extension : String → Action C (Unit {0})
  pub get_extension : String → Action C String
  pub get_extract_source : String → Action C String

-- `getPipelineCR`, `GetServiceConnection`, the templates, and the codecs of JSON
pub record ExtensionWeb (C : Type 0) : Type 0 where
  pub pipeline_name : String → Result String
  pub connect : String → Result (ExtensionClient C)
  pub template : String → Result (Unit {0})
  pub extension_codec : Codec Extension
  pub source_codec : Codec ExtractSource
  pub new_id : String

module _ {C : Type 0} (web : ExtensionWeb C) where
  abbrev pub ExtensionPage : Type 0
  ExtensionPage = Action C (Reply ExtensionForm)

  unfoldable pub show_create_extension : Wrapper → Request → ExtensionPage
  show_create_extension u r = or_else (of_result (web.pipeline_name (var "id" r))) say (λ name.
      or_else (of_result (web.connect name)) say (λ client.
        or_else (client.get_extract_source (var "extractsourceid" r)) say (λ text.
          or_else (of_result (web.source_codec.decode text)) say (λ source.
            or_else (of_result (web.template "pages/extension-create.html")) say (λ _. give (
              page "pages/extension-create.html" (record {
                user_email = u.user_email;
                error_text = u.error_text;
                pipeline_id = var "id" r;
                pipeline_name = name;
                extract_source_id = var "extractsourceid" r;
                extract_source_name = source.name;
                extension_id = "";
                extension_name = "";
                extension_path = "";
              })))))))

  -- The page for making an extension, with an error
  abbrev show_error : Wrapper → Request → String → ExtensionPage
  show_error u r e = show_create_extension (copy u e) r

  unfoldable pub extension : Wrapper → Request → ExtensionPage
  extension u r = or_else (of_result (web.pipeline_name (var "id" r))) say (λ name.
      or_else (of_result (web.connect name)) (show_error u r) (λ client.
        or_else (client.get_extract_source (var "extractsourceid" r)) (show_error u r) (λ text.
          or_else (of_result (web.source_codec.decode text)) (show_error u r) (λ source.
            or_else (client.get_extension (var "eid" r)) (show_error u r) (λ answer.
              or_else (of_result (web.extension_codec.decode answer)) (show_error u r) (λ ext.
                or_else (of_result (web.template "pages/extension.html")) (show_error u r) (λ _.
                  give (
                    page "pages/extension.html" (record {
                      user_email = u.user_email;
                      error_text = u.error_text;
                      pipeline_id = var "id" r;
                      pipeline_name = name;
                      extract_source_id = var "extractsourceid" r;
                      extract_source_name = source.name;
                      extension_id = var "eid" r;
                      extension_name = ext.extension_name;
                      extension_path = ext.extension_path;
                    })))))))))

  -- The extension of the form behind the connection
  unfoldable pub send_extension : Wrapper → Request → ExtensionClient C → ExtensionPage
  send_extension u r client = do
    name ← field "extensionname" r
    path ← field "extensionpath" r
    or_else
        (client.update_extension (
          encode_or_empty web.extension_codec (record {
            id = var "eid" r;
            extract_source_id = var "extractsourceid" r;
            extension_name = name;
            extension_path = path;
          })))
        (λ e. extension (copy u e) r) (λ _. give (redirect ("/pipelines/" <> var "id" r)))

  unfoldable pub update_extension : Wrapper → Request → ExtensionPage
  update_extension u r =
      if var "id" r == ""
      then show_error u r "invalid pipeline id"
      else if var "extractsourceid" r == ""
      then show_error u r "invalid extract source id"
      else if var "eid" r == ""
      then show_error u r "invalid extension id"
      else or_else (of_result (web.pipeline_name (var "id" r))) say
          (λ name. or_else (of_result (web.connect name)) (show_error u r) (send_extension u r))

  abbrev refuse_delete : String → ExtensionPage
  refuse_delete e = give (json_error ("error DeleteExtension " <> e))

  unfoldable pub delete_extension : Request → ExtensionPage
  delete_extension r = or_else (of_result (web.pipeline_name (var "id" r))) say (λ name.
      or_else (of_result (web.connect name)) refuse_delete (λ client.
        or_else (client.delete_extension (var "eid" r)) refuse_delete (λ _. give (
          redirect
            (("/pipelines/" <> var "id" r) <> ("/extractsources/" <> var "extractsourceid" r))))))

  -- The service is that of the name in the form.
  unfoldable pub create_extension : Wrapper → Request → ExtensionPage
  create_extension u r = do
    name ← field "extensionname" r
    path ← field "extensionpath" r
    pipeline ← field "pipelinename" r
    if name == ""
        then show_error u r "extension name is blank"
        else if path == ""
        then show_error u r "extension path is blank"
        else or_else (of_result (web.connect pipeline)) (show_error u r) (λ client.
          or_else (of_result (web.pipeline_name (var "id" r))) say (λ _.
            or_else
              (client.create_extension (
                encode_or_empty web.extension_codec (record {
                  id = web.new_id;
                  extract_source_id = var "extractsourceid" r;
                  extension_name = name;
                  extension_path = path;
                })))
              (show_error u r)
              (λ _. give (
                redirect (
                  ("/pipelines/" <> var "id" r)
                  <> (("/extractsources/" <> var "extractsourceid" r)
                      <> ("?pipelinename=" <> pipeline)))))))
