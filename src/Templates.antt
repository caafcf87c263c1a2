-- ===== src/Templates.antt =====
-- services/node-agent/src/greencompute_node_agent/domain/templates.py: the catalog of pod templates.
-- A fraction of a GPU is written in hundredths.
use greenference_node.Base.{ℕ, String, Option, [], ◌∷◌}
use greenference_node.Dict.{Dict, lookup}

pub record TemplateSpec : Type 0 where
  pub image : String
  pub port : ℕ
  pub gpu_percent : ℕ
  pub env_vars : Dict String
  pub description : String

abbrev spec : String → ℕ → ℕ → Dict String → String → TemplateSpec
spec image port gpu_percent env_vars description = record {
  image = image;
  port = port;
  gpu_percent = gpu_percent;
  env_vars = env_vars;
  description = description;
}

unfoldable pub builtin_templates : Dict TemplateSpec
builtin_templates =
    (
      "jupyter",
      spec "jupyter/scipy-notebook:latest" 8888 100 [] "Jupyter Notebook with scipy stack",
    )
    ∷ ("vscode", spec "codercom/code-server:latest" 8080 50 [] "VS Code Server in the browser")
    ∷ (
      "pytorch",
      spec "pytorch/pytorch:2.7.0-cuda12.8-cudnn9-runtime" 8888 100 [] "PyTorch 2.7 with CUDA 12.8",
    )
    ∷ (
      "pytorch-legacy",
      spec "pytorch/pytorch:2.2.0-cuda12.1-cudnn8-runtime" 8888 100 []
          "PyTorch 2.2 with CUDA 12.1 (legacy, for older drivers)",
    )
    ∷ ("vllm", spec "vllm/vllm-openai:v0.8.5" 8000 100 [] "vLLM OpenAI-compatible inference server")
    ∷ ("comfyui", spec "ghcr.io/ai-dock/comfyui:latest" 8188 100 [] "ComfyUI diffusion UI")
    ∷ (
      "ubuntu-ssh",
      spec "greencompute/gpu-pod:latest" 22 0 [] "Ubuntu 22.04 with SSH access (no GPU)",
    )
    ∷ ("gpu-pod", spec "greencompute/gpu-pod:latest" 22 100 [] "GPU pod with SSH access")
    ∷ (
      "pytorch-jupyter",
      spec "pytorch/pytorch:2.7.0-cuda12.8-cudnn9-runtime" 8888 100
          (("JUPYTER_ENABLE_LAB", "yes") ∷ []) "PyTorch 2.7 + CUDA 12.8 + JupyterLab",
    )
    ∷ []

unfoldable pub get_template : String → Option TemplateSpec
unfolding builtin_templates
get_template name = lookup name builtin_templates
