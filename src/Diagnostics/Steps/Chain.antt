-- ===== src/Diagnostics/Steps/Chain.antt =====
-- Each method of `Context` as a step of a command: its check, its data and what it owes.
use mathlib.Core.Bool.{false≢true}
use yocto_qemu_edu_lab.Common.{String, sym, ◌∙◌, ◌≡◌, refl, true, false, List, [], ◌∷◌, ok}
use yocto_qemu_edu_lab.Diagnostics.Checks.{CheckId, Status, Check, same_id}
use yocto_qemu_edu_lab.Diagnostics.Environment.{Environment}
use yocto_qemu_edu_lab.Diagnostics.Context.{
  Context, Step, project_version, repository, workflow, source_lock, lab_catalog, selection,
  cleanliness, tool_git, tool_ssh, source_checkout, build_file, evidence_file,
  evidence_document_check, evidence_result_check, evidence_inputs_check, evidence_subject_check,
  unless_blocked, find_checkout, read_build_file,
}
use yocto_qemu_edu_lab.Diagnostics.Transitions.{upstreams, derived_upstreams, allowed}
use yocto_qemu_edu_lab.Diagnostics.Steps.Records
use yocto_qemu_edu_lab.Diagnostics.Steps.Backed
use yocto_qemu_edu_lab.Diagnostics.Steps.Held
use yocto_qemu_edu_lab.Diagnostics.Steps.Owed
use yocto_qemu_edu_lab.Diagnostics.Steps.Derived
use yocto_qemu_edu_lab.Diagnostics.Steps.Order.{IsStep, Owes}

module _ (e : Environment) where
  pub project_version-IsStep : IsStep CheckId.project_version (project_version e)
  project_version-IsStep = record {
    records = Records.project_version-Records e;
    keeps = Backed.project_version-Backed e;
    owes = λ c k d h b o. record {
      dependency = refl;
      derived = refl;
      tool = λ same. cc;
      file = λ same. cc;
    };
  }

  pub repository-IsStep : IsStep CheckId.repository_git (repository e)
  repository-IsStep = record {
    records = Records.repository-Records e;
    keeps = Backed.repository-Backed e;
    owes = λ c k d h b o. record {
      dependency = refl;
      derived = refl;
      tool = λ same. cc;
      file = λ same. cc;
    };
  }

  pub workflow-IsStep : IsStep CheckId.workflow_task (workflow e)
  workflow-IsStep = record {
    records = Records.workflow-Records e;
    keeps = Backed.workflow-Backed e;
    owes = λ c k d h b o. record {
      dependency = refl;
      derived = refl;
      tool = λ same. cc;
      file = λ same. cc;
    };
  }

  pub source_lock-IsStep : IsStep CheckId.source_lock (source_lock e)
  source_lock-IsStep = record {
    records = Records.source_lock-Records e;
    keeps = Backed.source_lock-Backed e;
    owes = λ c k d h b o. record {
      dependency = refl;
      derived = refl;
      tool = λ same. cc;
      file = λ same. cc;
    };
  }

  pub tool_ssh-IsStep : IsStep CheckId.tool_ssh (tool_ssh e)
  tool_ssh-IsStep = record {
    records = Records.tool_ssh-Records e;
    keeps = Backed.tool_ssh-Backed e;
    owes = λ c k d h b o. record {
      dependency = refl;
      derived = refl;
      tool = λ same. cc;
      file = λ same. cc;
    };
  }

  pub tool_git-IsStep : IsStep CheckId.tool_git (tool_git e)
  tool_git-IsStep = record {
    records = Records.tool_git-Records e;
    keeps = Backed.tool_git-Backed e;
    owes = λ c k d h b o. record {
      dependency = refl;
      derived = refl;
      tool = λ same. Derived.tool_git-states e c k d b h;
      file = λ same. cc;
    };
  }

  pub lab_catalog-IsStep : IsStep CheckId.lab_catalog (lab_catalog e)
  lab_catalog-IsStep = record {
    records = Records.lab_catalog-Records e;
    keeps = Backed.lab_catalog-Backed e;
    owes = λ c k d h b o. record {
      dependency = Owed.lab_catalog-dependency e c k d h;
      derived = refl;
      tool = λ same. cc;
      file = λ same. cc;
    };
  }

  pub selection-IsStep : IsStep CheckId.lab_selection (selection e)
  selection-IsStep = record {
    records = Records.selection-Records e;
    keeps = Backed.selection-Backed e;
    owes = λ c k d h b o. record {
      dependency = Owed.selection-dependency e c k d h;
      derived = Owed.selection-derived e c k d b h;
      tool = λ same. cc;
      file = λ same. cc;
    };
  }

  pub cleanliness-IsStep : IsStep CheckId.repository_clean (cleanliness e)
  cleanliness-IsStep = record {
    records = Records.cleanliness-Records e;
    keeps = Backed.cleanliness-Backed e;
    owes = λ c k d h b o. record {
      dependency = Owed.cleanliness-dependency e c k d h;
      derived = Owed.cleanliness-derived e c k d b h;
      tool = λ same. cc;
      file = λ same. cc;
    };
  }

  pub evidence_file-IsStep : IsStep CheckId.evidence_file (evidence_file e)
  evidence_file-IsStep = record {
    records = Records.evidence_file-Records e;
    keeps = Backed.evidence_file-Backed e;
    owes = λ c k d h b o. record {
      dependency = Owed.evidence_file-dependency e c k d h;
      derived = refl;
      tool = λ same. cc;
      file = λ same. Derived.file-open e c k d b h;
    };
  }

  pub evidence_document_check-IsStep : IsStep CheckId.evidence_document (evidence_document_check e)
  evidence_document_check-IsStep = record {
    records = Records.evidence_document_check-Records e;
    keeps = Backed.evidence_document_check-Backed e;
    owes = λ c k d h b o. record {
      dependency = Owed.evidence_document_check-dependency e c k d h;
      derived = Owed.evidence_document_check-derived e c k d b o.file h;
      tool = λ same. cc;
      file = λ same. cc;
    };
  }

  pub evidence_result_check-IsStep : IsStep CheckId.evidence_result (evidence_result_check e)
  evidence_result_check-IsStep = record {
    records = Records.evidence_result_check-Records e;
    keeps = Backed.evidence_result_check-Backed e;
    owes = λ c k d h b o. record {
      dependency = Owed.evidence_result_check-dependency e c k d h;
      derived = Owed.evidence_result_check-derived e c k d b h;
      tool = λ same. cc;
      file = λ same. cc;
    };
  }

  pub evidence_inputs_check-IsStep : IsStep CheckId.evidence_inputs (evidence_inputs_check e)
  evidence_inputs_check-IsStep = record {
    records = Records.evidence_inputs_check-Records e;
    keeps = Backed.evidence_inputs_check-Backed e;
    owes = λ c k d h b o. record {
      dependency = Owed.evidence_inputs_check-dependency e c k d h;
      derived = Owed.evidence_inputs_check-derived e c k d b h;
      tool = λ same. cc;
      file = λ same. cc;
    };
  }

  pub evidence_subject_check-IsStep : IsStep CheckId.evidence_subject (evidence_subject_check e)
  evidence_subject_check-IsStep = record {
    records = Records.evidence_subject_check-Records e;
    keeps = Backed.evidence_subject_check-Backed e;
    owes = λ c k d h b o. record {
      dependency = Owed.evidence_subject_check-dependency e c k d h;
      derived = Owed.evidence_subject_check-derived e c k d b h;
      tool = λ same. cc;
      file = λ same. cc;
    };
  }

-- A check on one checkout or one file: what the tables say of it.
pub record IsLeaf (i : CheckId) (us : List CheckId) : Type 0 where
  pub is_plain : Held.IsPlain i
  pub depends : upstreams i ≡ us
  pub free : (s : Status) → allowed i s ≡ true
  pub not_derived : derived_upstreams i ≡ []
  pub not_tool : same_id i CheckId.tool_git ≡ false

leaf-Owes :
    (i : CheckId) (us : List CheckId) (m : Step) (c : Context) (k : Check) (d : Context)
    → IsLeaf i us
    → unless_blocked us i m c ≡ ok (k, d)
    → Owes c.statuses i k.status
leaf-Owes i us m c k d l h = record {
  dependency = rw l.depends (Derived.guarded_dependency us i m c k d h);
  derived = rw l.not_derived (l.free k.status);
  tool = λ same. absurd (false≢true (sym l.not_tool ∙ same));
  file = λ same. absurd (false≢true (sym l.is_plain.not_file ∙ same));
}

module _ (e : Environment) (name : String) (i : CheckId) where
  pub source_checkout-IsStep :
      IsLeaf i (CheckId.tool_git ∷ CheckId.source_lock ∷ []) → IsStep i (source_checkout e name i)
  unfolding source_checkout
  source_checkout-IsStep l = record {
    records = Records.source_checkout-Records e name i;
    keeps = Backed.source_checkout-Backed e name i l.is_plain;
    owes = λ c k d h b o. leaf-Owes i _ (find_checkout e name i) c k d l h;
  }

  pub build_file-IsStep : IsLeaf i (CheckId.lab_selection ∷ []) → IsStep i (build_file e name i)
  unfolding build_file
  build_file-IsStep l = record {
    records = Records.build_file-Records e name i;
    keeps = Backed.build_file-Backed e name i l.is_plain;
    owes = λ c k d h b o. leaf-Owes i _ (read_build_file e name i) c k d l h;
  }
