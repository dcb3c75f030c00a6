-- ===== src/Settings/Secrets.antt =====
-- internal/setting/settings.go: the documents of a project hold no credential.
use stepan.Base.{
  ◌≡◌, refl, Bool, true, false, Option, some, not, string_eq, arith, inl, inr, Bool-cases,
  Option-cases,
}
use stepan.Settings.{
  SettingError, loaded, loaded_before, refuse_if, Raw, Object, Json, field, has, Sources,
  DocumentSections, nested_object, document_sections, parse_document, sources_from_documents,
}

-- The document is an object whose section of the Nessy application names no token.
pub record IsClean (json : Json) (text : Raw) : Type 0 where
  pub root : Object
  pub agent : Object
  pub nessy : Object
  pub reads : json.object text ≡ some root
  pub reads_agent : nested_object json (field "agentruntime" root) ≡ loaded agent
  pub reads_nessy : nested_object json (field "nessyapp" agent) ≡ loaded nessy
  pub no_token : has "auth_token" nessy ≡ false

allowed : (b : Bool) (e : SettingError) → refuse_if b e ≡ loaded tt → b ≡ false
allowed true e h = cc
allowed false e h = refl

parse_document-IsClean :
    (json : Json) (text : Raw) (d : DocumentSections)
    → parse_document json true (some text) ≡ loaded d
    → IsClean json text
unfolding parse_document document_sections
parse_document-IsClean json text d ok = elim (Bool-cases (not (json.valid text))) [
  | inl broken ↦ absurd (ground arith)
  | inr fine ↦ elim (Option-cases (json.object text)) [
    | inl missing ↦ absurd (ground arith)
    | inr (root, reads) ↦
        let e0 : document_sections json true root ≡ loaded d = ground arith in
        let (u0, current, e1) = loaded_before _ _ d e0 in
        let (agent, reads_agent, e2) = loaded_before _ _ d e1 in
        let (flows, reads_flows, e3) = loaded_before _ _ d e2 in
        let (u1, profiles, e4) = loaded_before _ _ d e3 in
        let (u2, guarded, e5) = loaded_before _ _ d e4 in
        let (nessy, reads_nessy, free) = loaded_before _ _ tt guarded in
        record {
          root = root;
          agent = agent;
          nessy = nessy;
          reads = reads;
          reads_agent = reads_agent;
          reads_nessy = reads_nessy;
          no_token = allowed _ _ free;
        }
  ]
]

-- `SourcesFromDocuments` accepts a project's document only if it holds no token for the Nessy
-- application.
pub sources_from_documents-IsClean :
    (json : Json) (user : Option Raw) (project : Raw) (s : Sources)
    → sources_from_documents json user (some project) ≡ loaded s
    → IsClean json project
unfolding sources_from_documents
sources_from_documents-IsClean json user project s ok =
    let (u, reads_user, e1) = loaded_before _ _ s ok in
    let (p, reads_project, e2) = loaded_before _ _ s e1 in
    parse_document-IsClean json project p reads_project
